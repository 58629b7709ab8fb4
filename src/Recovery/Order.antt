-- ===== src/Recovery/Order.antt =====
-- cmd/vortexmq/main.go: what waits in the topics when the program has started.
use mathlib.Core.Option
use vortexmq.Prelude.{
  ℕ, ◌<◌, ◌^◌, ◌++◌, map, length, false, Option, none, some, List, [], ◌∷◌, Bytes, bytes_dec, ite,
  lookup, lookup-insert_self, lookup-insert_ne, ◌≡◌, ◌≢◌, refl, sym, ap, ◌∙◌, subst, arith,
}
use vortexmq.Deque.{Deque, do_push}
use vortexmq.Ring
use vortexmq.Ring.{new_with, round_up, fresh}
use vortexmq.Ring.Refine.{Refines, push-Refines}
use vortexmq.Ring.New.{fresh-Refines}
use vortexmq.Message.{Message}
use vortexmq.Topic
use vortexmq.Topic.{Topic, put_ring, pushed}
use vortexmq.Topic.Enqueue.{publish-accepts}
use vortexmq.Broker
use vortexmq.Broker.{Broker, put_topic, get_or_create_topic}
use vortexmq.Wal.{Wal, Storage, close}
use vortexmq.Wal.Durable.{IsStorage, Keeps}
use vortexmq.Wal.Replay.{Event, publications, AllFit}
use vortexmq.Wal.Restart.{log_all, replay-log_all}
use vortexmq.Recovery.{restore, restore_all, recover}

-- The queue of a new topic.
abbrev pub empty_queue : Deque Message
empty_queue = record { items = []; capacity = 131072; closed = false }

-- The messages of one topic, pushed in their order behind those that wait in it.
unfoldable pub queue_of : Bytes → List Message → Deque Message → Deque Message
queue_of name [] d = d
queue_of name (m ∷ ms) d = queue_of name ms (ite (bytes_dec m.topic name) (do_push m d).0 d)

new_ring : new_with {A = Message} 64 131072 ≡ some (fresh 131072)
unfolding new_with round_up
new_ring = refl

fresh_ring-Refines : Refines (fresh 131072) empty_queue
fresh_ring-Refines = fresh-Refines 17 131072 (omega arith) refl

pub new_topic :
    (name : Bytes)
    → (t : Topic) × (Topic.new name 131072 ≡ some t)
      × (t.closed ≡ false)
      × Refines t.ring empty_queue
unfolding Topic.new
new_topic name = (_, ap (Option.map _) new_ring, refl, fresh_ring-Refines)

closed-do_push : (m : Message) (d : Deque Message) → (do_push m d).0.closed ≡ d.closed
unfolding do_push
closed-do_push m d = ground arith

module _ {W : Type 0} where
  -- A topic that holds a queue; one that is not there holds the queue of a new topic.
  pub data Stands (name : Bytes) (b : Broker W) (d : Deque Message) : Type 0 where
    missing : lookup name b.topics ≡ none → d ≡ empty_queue → Stands name b d
    present :
        (t : Topic)
        → lookup name b.topics ≡ some t
        → t.closed ≡ false
        → d.closed ≡ false
        → Refines t.ring d
        → Stands name b d

  -- What GetOrCreateTopic gives the callback.
  record Opened (name : Bytes) (b : Broker W) (d : Deque Message) : Type 0 where
    broker : Broker W
    topic : Topic
    runs : get_or_create_topic name b ≡ some (broker, topic)
    running : topic.closed ≡ false
    unlocked : d.closed ≡ false
    holds : Refines topic.ring d
    others : (other : Bytes) → name ≢ other → lookup other broker.topics ≡ lookup other b.topics

  Stands-Opened :
      (name : Bytes) (b : Broker W) (d : Deque Message) → Stands name b d → Opened name b d
  unfolding get_or_create_topic put_topic Topic.new
  Stands-Opened name b d (present t e p q f) = record {
    broker = b;
    topic = t;
    runs = rw (e, get_or_create_topic) refl;
    running = p;
    unlocked = q;
    holds = f;
    others = λ other ne. refl;
  }
  Stands-Opened name b d (missing e q) = record {
    broker = put_topic name n.0 b;
    topic = n.0;
    runs = rw (e, get_or_create_topic) (ap (Option.map (λ t. (put_topic name t b, t))) n.1);
    running = n.2;
    unlocked = ap (λ (x : Deque Message). x.closed) q;
    holds = subst (Refines n.0.ring) (sym q) n.3;
    others = λ other ne. lookup-insert_ne name other n.0 b.topics ne;
  }
    where
      n :
          (t : Topic) × (Topic.new name 131072 ≡ some t)
          × (t.closed ≡ false)
          × Refines t.ring empty_queue
      n = new_topic name

  restore-Stands :
      (m : Message) (b : Broker W) (d : Deque Message) (o : Opened m.topic b d)
      → (b' : Broker W) × (restore m b ≡ some b')
        × Stands m.topic b' (do_push m d).0
        × ((other : Bytes) → m.topic ≢ other → lookup other b'.topics ≡ lookup other b.topics)
  unfolding restore put_topic do_push Topic.count_published put_ring
  restore-Stands m b d o = (
    put_topic m.topic t o.broker,
    ap (λ r. Option.map (λ r. put_topic m.topic (Topic.publish m r.1).0 r.0) r) o.runs
        ∙ ap (λ p. some (put_topic m.topic p.0 o.broker))
            (publish-accepts o.topic d o.holds o.running o.unlocked m),
    present t (lookup-insert_self m.topic t o.broker.topics) o.running
        (closed-do_push m d ∙ o.unlocked) (push-Refines m o.topic.ring d o.holds).0,
    λ other ne. lookup-insert_ne m.topic other t o.broker.topics ne ∙ o.others other ne,
  )
    where
      t : Topic
      t = Topic.count_published m (put_ring (Ring.push m o.topic.ring).0 o.topic)

  step-Stands :
      (m : Message) (b b' : Broker W) (q : Bytes → Deque Message)
      → Stands m.topic b' (do_push m (q m.topic)).0
      → ((other : Bytes) → m.topic ≢ other → lookup other b'.topics ≡ lookup other b.topics)
      → ((name : Bytes) → Stands name b (q name))
      → (name : Bytes) (x : Dec (m.topic ≡ name))
      → Stands name b' (ite x (do_push m (q name)).0 (q name))
  step-Stands m b b' q mine others h name (yes e) =
      subst (λ name. Stands name b' (do_push m (q name)).0) e mine
  step-Stands m b b' q mine others h name (no ne) = elim (h name) [
    | missing e p ↦ missing (others name ne ∙ e) p
    | present t e p u f ↦ present t (others name ne ∙ e) p u f
  ]

  -- Restoring messages into a broker whose topics hold the queues `q` comes to its end, without a panic,
  -- and then each topic holds its queue with its own messages pushed behind, in their order.
  pub restore_all-Stands :
      (ms : List Message) (b : Broker W) (q : Bytes → Deque Message)
      → ((name : Bytes) → Stands name b (q name))
      → (b' : Broker W) × (restore_all ms b ≡ some b')
        × ((name : Bytes) → Stands name b' (queue_of name ms (q name)))
  unfolding restore_all queue_of
  restore_all-Stands [] b q h = (b, refl, h)
  restore_all-Stands (m ∷ ms) b q h =
      let (b1, runs, mine, others) =
        restore-Stands m b (q m.topic) (Stands-Opened m.topic b (q m.topic) (h m.topic)) in
      let (b2, runs2, h2) =
        restore_all-Stands ms b1
          (λ name. ite (bytes_dec m.topic name) (do_push m (q name)).0 (q name))
          (λ name. step-Stands m b b1 q mine others h name (bytes_dec m.topic name)) in
      (b2, rw (runs, restore_all) runs2, h2)

  pub new-Stands :
      (wal : Option W) (sequence : ℕ) (name : Bytes)
      → Stands name (Broker.new wal sequence) empty_queue
  unfolding Broker.new lookup
  new-Stands wal sequence name = missing refl refl

module _ {ℓ} {S : Type ℓ} (json : Message → Bytes) (crc : Bytes → ℕ) (io : Storage S)
    (full : S → List Bytes) (active held : S → Bytes) (laws : IsStorage io full active held)
    (unmarshal : Bytes → Option Message) (crc_bound : (bs : Bytes) → crc bs < 2 ^ 32) where
  -- A program logs publications and acknowledgements from a fresh log on, and closes the log; the next one
  -- opens a new broker and replays the files. It starts without a panic, counts the publications, and
  -- in every topic wait the messages that were published there, in the order of publication, as a queue
  -- of the ring's bounds takes them; those that were acknowledged wait again.
  pub recover-log_all :
      {W : Type 0} (wal : Option W) (sequence : ℕ) (es : List Event) (w : Wal) (s : S)
      → AllFit json unmarshal es
      → Keeps io full active held w s [] []
      → (w' : Wal) × (s' : S) × (b : Broker W) × (log_all json crc io es w s ≡ some (w', s'))
        × (recover crc unmarshal
              (map some (full (close io w' s').1 ++ (active (close io w' s').1 ∷ [])))
              (Broker.new wal sequence)
            ≡ some (b, length (publications es)))
        × ((name : Bytes) → Stands name b (queue_of name (publications es) empty_queue))
  unfolding recover
  recover-log_all wal sequence es w s fits keeps =
      let (w', s', runs, found) =
        replay-log_all json crc io full active held laws unmarshal crc_bound es w s fits keeps in
      let (b, restored, h) =
        restore_all-Stands (publications es) (Broker.new wal sequence) (λ name. empty_queue)
          (new-Stands wal sequence) in
      (
        w',
        s',
        b,
        runs,
        ap
              (λ (r : ℕ × List Message).
                Option.map (λ b'. (b', r.0)) (restore_all r.1 (Broker.new wal sequence)))
              found
            ∙ ap (Option.map (λ b'. (b', length (publications es)))) restored,
        h,
      )
