-- ===== src/Tests/BrokerTests.antt =====
-- internal/queue/topic.go on a topic whose ring is full, and internal/queue/broker.go with this topic
-- and a log that counts its records.
use vortexmq.Prelude.{
  ℕ, ◌+◌, ◌++◌, ◌≢◌, ◌≡◌, refl, arith, false, true, none, some, [], ◌∷◌, Bytes, lookup, delete,
}
use vortexmq.Int.{pos, wrap64, ◌+ℤ◌}
use vortexmq.Deque.{Deque, room, do_push}
use vortexmq.Ring.{Ring}
use vortexmq.Ring.Refine.{Refines}
use vortexmq.Message.{Message, Entropy, clone}
use vortexmq.Wheel
use vortexmq.Dlq
use vortexmq.Group.{Group, PendingMessage, failed}
use vortexmq.Group
use vortexmq.Topic
use vortexmq.Topic.{Topic, consume_group, nack, refreshed, replay_dead_letter}
use vortexmq.Topic.Failure.{nack-replay_dead_letter}
use vortexmq.Topic.Delivery.{consume_group-Refines}
use vortexmq.Channels.{no_channels}
use vortexmq.Broker
use vortexmq.Broker.{Broker, BrokerWal, publish, consume}
use vortexmq.Broker.Publish.{publish-Refines, publish-refused}
use vortexmq.Broker.Ack.{ack-ack}
use vortexmq.Broker.Consume.{consume-Refines}
use vortexmq.Waiting.{ticks}
use vortexmq.Group.Pending.{unless_expired}
use vortexmq.Broker.Sweep.{run_sweep_loop, run_sweep_loop-expired}
use vortexmq.Tests.Samples.{letter, other}

abbrev pub full_ring : Ring Message
full_ring = record {
  nodes = some other ∷ some letter ∷ [];
  head = 1;
  tail = 3;
  mask = 1;
  capacity = 2;
  closed = false;
}

abbrev pub full_queue : Deque Message
full_queue = record { items = letter ∷ other ∷ []; capacity = 2; closed = false }

pub full_ring-Refines : Refines full_ring full_queue
full_ring-Refines = record {
  holds = record {
    shape = record {
      log = 1;
      log_le = omega arith;
      capacity_eq = refl;
      capacity_le = omega arith;
      capacity_pos = omega arith;
      mask_eq = refl;
      storage = refl;
    };
    head_word = omega arith;
    tail_eq = refl;
    fits = omega arith;
    items = refl;
  };
  capacity_eq = refl;
  closed_eq = refl;
}

abbrev pub orders : Topic
orders = record {
  name = 1 ∷ [];
  ring = full_ring;
  groups = [];
  dlq = Dlq.new (pos 10);
  tw = Wheel.new (pos 50) (pos 3);
  closed = false;
  published = 2;
  consumed = 0;
  acked = 0;
  nacked = 0;
  dead_lettered = 0;
  bytes_pub = 0;
  bytes_sub = 0;
}

abbrev pub broker : Broker ℕ
broker = record {
  topics = (1 ∷ [], orders) ∷ [];
  wal = some 2;
  closed = false;
  sequence = 2;
  total_published = 2;
  total_consumed = 0;
  total_acked = 0;
  total_nacked = 0;
  channels = no_channels;
}

abbrev pub counting : BrokerWal ℕ
counting = record {
  write_publish = λ m n. (n + 1, true);
  write_ack = λ topic group id n. (n + 1, true);
  close = λ n. (n, true);
}

abbrev refusing : BrokerWal ℕ
refusing = record counting { write_publish = λ m n. (n, false) }

abbrev pub noon : Entropy
noon = record { now = pos 43200000000000; random = 1 ∷ 255 ∷ [] }

publish-Refines_example :
    (b' : Broker ℕ) × (t' : Topic) × (m : Message) × (publish counting
        (1 ∷ [])
        (some (9 ∷ []))
        noon
        broker
      ≡ some (b', some m))
    × (m.payload ≡ some (9 ∷ []))
    × (lookup (1 ∷ []) b'.topics ≡ some t')
    × Refines t'.ring (do_push m full_queue).0
    × ((name : Bytes) → 1 ∷ [] ≢ name → lookup name b'.topics ≡ lookup name broker.topics)
unfolding lookup Broker.write_wal
publish-Refines_example =
    publish-Refines counting (1 ∷ []) (some (9 ∷ [])) noon broker orders refl full_queue
      full_ring-Refines refl refl refl

publish-refused_example :
    (b' : Broker ℕ) × (publish refusing (1 ∷ []) (some (9 ∷ [])) noon broker ≡ some (b', none))
    × (b'.topics ≡ broker.topics)
unfolding lookup Broker.write_wal
publish-refused_example =
    publish-refused refusing (1 ∷ []) (some (9 ∷ [])) noon broker orders refl refl

consume-Refines_example :
    (b' : Broker ℕ) × (t' : Topic) × (consume (1 ∷ []) (pos 0) broker [] broker
      ≡ Broker.returned b' (some letter))
    × (lookup (1 ∷ []) b'.topics ≡ some t')
    × Refines t'.ring (record full_queue { items = other ∷ [] })
    × ((name : Bytes) → 1 ∷ [] ≢ name → lookup name b'.topics ≡ lookup name broker.topics)
unfolding lookup
consume-Refines_example =
    consume-Refines orders full_queue full_ring-Refines letter (other ∷ []) refl (1 ∷ []) broker
      refl (pos 0) []

consume_group-Refines_example :
    (t : Topic) × (g : Group) × (p : PendingMessage) × (consume_group
        (7 ∷ [])
        (8 ∷ [])
        (pos 0)
        (pos 100)
        orders
        []
      ≡ Topic.returned_some t p.message)
    × (lookup (7 ∷ []) t.groups ≡ some g)
    × (lookup letter.id g.pel ≡ some p)
    × (p.message.payload ≡ none)
    × (p.consumer_id ≡ 8 ∷ [])
    × Refines t.ring (record full_queue { items = other ∷ [] })
consume_group-Refines_example =
    consume_group-Refines orders full_queue full_ring-Refines letter (other ∷ []) refl (7 ∷ [])
      (8 ∷ []) (pos 0) (pos 100) []

-- `letter` at its third failure.
abbrev last_try : PendingMessage
last_try = record {
  message = record letter { retry_count = pos 2 };
  consumer_id = 8 ∷ [];
  delivery_time = pos 0;
  ack_deadline = pos 9;
}

abbrev workers : Group
workers = record (Group.new (7 ∷ []) (1 ∷ []) (pos 30)) { pel = (letter.id, last_try) ∷ [] }

nack-replay_dead_letter_example :
    let m = refreshed (clone (failed last_try.message (5 ∷ []))) (pos 200) in
    let t = record orders { groups = (7 ∷ [], workers) ∷ [] } in
    (t' : Topic) × (t'' : Topic) × (nack (7 ∷ []) letter.id (5 ∷ []) (pos 100) t ≡ some (t', true))
    × (lookup (7 ∷ []) t'.groups ≡ some (record workers { pel = delete letter.id workers.pel }))
    × (replay_dead_letter letter.id (pos 200) t' ≡ (t'', some m))
    × (m.payload ≡ none)
    × (m.retry_count ≡ pos 0)
    × Refines t''.ring (record full_queue {
      items = (room full_queue).items ++ (m ∷ []);
      capacity = (room full_queue).capacity;
    })
    × (lookup letter.id t''.dlq.entries ≡ none)
unfolding lookup failed wrap64 ◌+ℤ◌
nack-replay_dead_letter_example =
    nack-replay_dead_letter letter.id (5 ∷ []) workers last_try refl refl (7 ∷ []) (pos 100)
      (record orders { groups = (7 ∷ [], workers) ∷ [] }) refl full_queue (pos 200)
      full_ring-Refines refl

abbrev staffed : Broker ℕ
staffed = record broker {
  topics = (1 ∷ [], record orders { groups = (7 ∷ [], workers) ∷ [] }) ∷ [];
}

ack-ack_example :
    (b' : Broker ℕ) × (b'' : Broker ℕ) × (Broker.ack counting (1 ∷ []) (7 ∷ []) letter.id staffed
      ≡ (b', true))
    × (b'.total_acked ≡ 1)
    × (b'.wal ≡ some 3)
    × (Broker.ack counting (1 ∷ []) (7 ∷ []) letter.id b' ≡ (b'', false))
    × (b''.total_acked ≡ b'.total_acked)
    × (b''.wal ≡ b'.wal)
unfolding lookup Broker.write_ack
ack-ack_example =
    ack-ack counting (1 ∷ []) (7 ∷ []) letter.id staffed
      (record orders { groups = (7 ∷ [], workers) ∷ [] }) refl workers refl last_try refl

run_sweep_loop-expired_example :
    (t' : Topic) × (g' : Group) × (lookup
        (1 ∷ [])
        (run_sweep_loop
          ((ticks, (λ found. found), (λ topic group. pos 40), pos 41) ∷ [])
          staffed).topics
      ≡ some t')
    × (lookup (7 ∷ []) t'.groups ≡ some g')
    × ((id : Bytes) → lookup id g'.pel ≡ unless_expired (pos 40) (lookup id workers.pel))
unfolding lookup
run_sweep_loop-expired_example =
    run_sweep_loop-expired (λ topic group. pos 40) (pos 41) staffed (1 ∷ []) (7 ∷ [])
      (record orders { groups = (7 ∷ [], workers) ∷ [] }) workers refl refl (refl, tt)
