-- ===== src/Topic.antt =====
-- internal/queue/topic.go: a topic, which joins a ring, consumer groups, a dead letter queue and a
-- timing wheel. Times are arguments; the uint64 counters wrap.
pub mod Ready
pub mod Enqueue
pub mod Delivery
pub mod Failure
pub mod Sweep
use mathlib.Core.Option
use vortexmq.Prelude.{
  ℕ, ◌+◌, Bool, true, false, Option, none, some, List, [], ◌∷◌, map, if◌then◌else◌, length, Bytes,
  Map, lookup, insert, add64,
}
use vortexmq.Int.{ℤ, pos, ◌+ℤ◌, wrap64}
use vortexmq.Ring
use vortexmq.Ring.{Ring, Popped, waiting, returned}
use vortexmq.Message.{Message, payload_len}
use vortexmq.Wheel
use vortexmq.Wheel.{Wheel}
use vortexmq.Dlq
use vortexmq.Dlq.{Dlq}
use vortexmq.Group
use vortexmq.Group.{Group, Action, retry, dead_letter}

-- `Topic`
pub record Topic : Type 0 where
  pub name : Bytes
  pub ring : Ring Message
  pub groups : Map Group
  pub dlq : Dlq
  pub tw : Wheel Message
  pub closed : Bool
  pub published : ℕ
  pub consumed : ℕ
  pub acked : ℕ
  pub nacked : ℕ
  pub dead_lettered : ℕ
  pub bytes_pub : ℕ
  pub bytes_sub : ℕ

-- `NewTopic`; `none` if the ring's loop does not end.
unfoldable pub new : Bytes → ℕ → Option Topic
new name capacity =
    Option.map
      (λ ring. record {
        name = name;
        ring = ring;
        groups = [];
        dlq = Dlq.new (pos 50000);
        tw = Wheel.new (pos 50000000) (pos 3600);
        closed = false;
        published = 0;
        consumed = 0;
        acked = 0;
        nacked = 0;
        dead_lettered = 0;
        bytes_pub = 0;
        bytes_sub = 0;
      })
      (Ring.new_with 64 capacity)

-- The two counters that a publication adds to.
unfoldable pub count_published : Message → Topic → Topic
count_published m t = record t {
  published = add64 t.published 1;
  bytes_pub = add64 t.bytes_pub (payload_len m.payload);
}

unfoldable pub count_consumed : Message → Topic → Topic
count_consumed m t = record t {
  consumed = add64 t.consumed 1;
  bytes_sub = add64 t.bytes_sub (payload_len m.payload);
}

unfoldable pub put_ring : Ring Message → Topic → Topic
put_ring r t = record t { ring = r }

-- What `Publish` and `PublishFront` do with the answer of the ring.
unfoldable pub pushed : Message → Ring Message × Bool → Topic → Topic × Bool
pushed m (r, true) t = (count_published m (put_ring r t), true)
pushed m (r, false) t = (put_ring r t, false)

-- `Publish`
unfoldable pub publish : Message → Topic → Topic × Bool
publish m t = if t.closed then (t, false) else pushed m (Ring.push m t.ring) t

-- `PublishFront`
unfoldable pub publish_front : Message → Topic → Topic × Bool
publish_front m t = if t.closed then (t, false) else pushed m (Ring.push_front m t.ring) t

-- The wheel's `onExpire`, called for each of these messages: the answer of the push is dropped.
unfoldable pub expire : List Message → Topic → Topic
expire [] t = t
expire (m ∷ ms) t = expire ms (put_ring (Ring.push m t.ring).0 t)

-- `t.tw.Add(msg, delay)`
unfoldable pub schedule : Message → ℤ → Topic → Topic
schedule m delay t = let (tw, fired) = Wheel.add m delay t.tw in expire fired (record t { tw = tw })

-- One tick of the wheel's `run`.
unfoldable pub tick : Topic → Topic
tick t =
    let (tw, fired) = Wheel.advance t.tw in
    if t.tw.closed then t else expire fired (record t { tw = tw })

-- `PublishDelayed`
unfoldable pub publish_delayed : Message → ℤ → ℤ → Topic → Topic
publish_delayed m delay now t =
    let m' = record m { deliver_at = wrap64 (now +ℤ delay) } in
    schedule m' delay (count_published m' t)

-- How a call that takes a message out ends: asleep, returned, or stopped by a nil pointer.
pub data Consumed : Type 0 where
  asleep : Topic → Consumed
  returned_none : Topic → Consumed
  returned_some : Topic → Message → Consumed
  panicked : Consumed

unfoldable pub taken : Topic → Option (Option Message) → Consumed
taken t none = returned_none t
taken t (some none) = panicked
taken t (some (some m)) = returned_some (count_consumed m t) m

-- `Consume`
unfoldable pub consume : Topic → Consumed
consume t = let (r, x) = Ring.pop t.ring in taken (put_ring r t) x

unfoldable pub waited : Popped Topic Message → Consumed
waited (waiting t) = asleep t
waited (returned t x) = taken t x

-- `ConsumeWait`; `wakes` is what each wake-up finds.
unfoldable pub consume_wait : ℤ → Topic → List (ℤ × Topic) → Consumed
consume_wait timeout t wakes = waited (Ring.pop_wait (λ s. s.ring) put_ring timeout t wakes)

-- `GetOrCreateGroup`
unfoldable pub get_or_create_group : Bytes → ℤ → Topic → Topic × Group
get_or_create_group group timeout t = elim (lookup group t.groups) [
  | some g ↦ (t, g)
  | none ↦ (
    record t { groups = insert group (Group.new group t.name timeout) t.groups },
    Group.new group t.name timeout,
  )
]

-- The rest of `ConsumeGroup` after the pop: a group is never removed, so it is found again.
unfoldable pub check_out : Bytes → Bytes → ℤ → Consumed → Consumed
check_out group consumer now (returned_some t m) = elim (lookup group t.groups) [
  | none ↦ returned_some t m
  | some g ↦
      let (g', m') = Group.checkout m consumer (pos 30000000000) now g in
      returned_some (record t { groups = insert group g' t.groups }) m'
]
check_out group consumer now (asleep t) = asleep t
check_out group consumer now (returned_none t) = returned_none t
check_out group consumer now panicked = panicked

-- `ConsumeGroup`
unfoldable pub consume_group : Bytes → Bytes → ℤ → ℤ → Topic → List (ℤ × Topic) → Consumed
consume_group group consumer timeout now t wakes =
    check_out group consumer now
      (consume_wait timeout (get_or_create_group group (pos 30000000000) t).0 wakes)

-- `Ack`
unfoldable pub acked_by : Bytes → Group × Bool → Topic → Topic × Bool
acked_by group (g, true) t =
    (record t { groups = insert group g t.groups; acked = add64 t.acked 1 }, true)
acked_by group (g, false) t = (t, false)

unfoldable pub ack : Bytes → Bytes → Topic → Topic × Bool
ack group id t = elim (lookup group t.groups) [
  | none ↦ (t, false)
  | some g ↦ acked_by group (Group.ack id g) t
]

-- The callbacks that `GetOrCreateGroup` gives a group; `failed_at` is the clock in `dlq.Add`.
unfoldable pub perform : ℤ → List Action → Topic → Topic
perform failed_at [] t = t
perform failed_at (retry m delay ∷ actions) t = perform failed_at actions (schedule m delay t)
perform failed_at (dead_letter m cause ∷ actions) t =
    perform failed_at actions
      (record t { dlq = Dlq.add m cause failed_at t.dlq; dead_lettered = add64 t.dead_lettered 1 })

-- `Nack`; `none` is a panic in the backoff.
unfoldable pub nacked_by : Bytes → ℤ → Group × Bool × List Action → Topic → Topic × Bool
nacked_by group failed_at (g, false, actions) t = (t, false)
nacked_by group failed_at (g, true, actions) t =
    let t' = perform failed_at actions (record t { groups = insert group g t.groups }) in
    (record t' { nacked = add64 t'.nacked 1 }, true)

unfoldable pub nack : Bytes → Bytes → Bytes → ℤ → Topic → Option (Topic × Bool)
nack group id reason failed_at t = elim (lookup group t.groups) [
  | none ↦ some (t, false)
  | some g ↦ Option.map (λ r. nacked_by group failed_at r t) (Group.nack id reason g)
]

-- `ReplayDeadLetter`: the answer of the push is dropped.
unfoldable pub refreshed : Message → ℤ → Message
refreshed m now = record m { retry_count = pos 0; failure_cause = []; deliver_at = now }

unfoldable pub replay_dead_letter : Bytes → ℤ → Topic → Topic × Option Message
replay_dead_letter id now t =
    let (dlq, found) = Dlq.remove id t.dlq in
    elim found [
      | none ↦ (t, none)
      | some m ↦ (
        record t { dlq = dlq; ring = (Ring.push (refreshed m now) t.ring).0 },
        some (refreshed m now),
      )
    ]

-- `SweepConsumerTimeouts`: each group reads the clock for itself, and its calls are made at once, with one
-- time for the dead letters.
unfoldable pub sweep_group : Bytes → ℤ → ℤ → Topic → Topic × ℕ
sweep_group group now failed_at t = elim (lookup group t.groups) [
  | none ↦ (t, 0)
  | some g ↦
      let (g', n, actions) = Group.sweep_timeouts now g in
      (perform failed_at actions (record t { groups = insert group g' t.groups }), n)
]

unfoldable pub sweep_groups : List Bytes → (Bytes → ℤ) → ℤ → Topic → Topic × ℕ
sweep_groups [] now failed_at t = (t, 0)
sweep_groups (group ∷ rest) now failed_at t =
    let (t', n) = sweep_group group (now group) failed_at t in
    let (t'', total) = sweep_groups rest now failed_at t' in (t'', n + total)

unfoldable pub sweep_consumer_timeouts : (Bytes → ℤ) → ℤ → Topic → Topic × ℕ
sweep_consumer_timeouts now failed_at t = sweep_groups (map (λ e. e.0) t.groups) now failed_at t

-- `Close`
unfoldable pub close : Topic → Topic
close t =
    if t.closed
    then t
    else record t { closed = true; ring = Ring.close t.ring; tw = Wheel.stop t.tw }

-- `TopicStats`, and `Stats`
pub record Stats : Type 0 where
  pub name : Bytes
  pub length : ℕ
  pub capacity : ℕ
  pub published : ℕ
  pub consumed : ℕ
  pub acked : ℕ
  pub nacked : ℕ
  pub dead_lettered : ℕ
  pub bytes_published : ℕ
  pub bytes_consumed : ℕ
  pub consumer_groups : ℕ
  pub dead_letter_count : ℕ

unfoldable pub stats : Topic → Stats
stats t = record {
  name = t.name;
  length = Ring.len t.ring;
  capacity = Ring.cap t.ring;
  published = t.published;
  consumed = t.consumed;
  acked = t.acked;
  nacked = t.nacked;
  dead_lettered = t.dead_lettered;
  bytes_published = t.bytes_pub;
  bytes_consumed = t.bytes_sub;
  consumer_groups = length t.groups;
  dead_letter_count = Dlq.len t.dlq;
}
