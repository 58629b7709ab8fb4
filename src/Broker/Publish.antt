-- ===== src/Broker/Publish.antt =====
-- internal/queue/broker.go, Publish: what becomes of a message, from the log to the topic's ring.
use mathlib.Core.Option
use vortexmq.Prelude.{
  Bool, true, false, Option, none, some, Bytes, lookup, lookup-insert_self, lookup-insert_ne,
  if-true, if-false, ◌≡◌, ◌≢◌, refl, ap, ◌∙◌,
}
use vortexmq.Ring
use vortexmq.Ring.Refine.{Refines, push-Refines}
use vortexmq.Deque.{Deque, do_push}
use vortexmq.Message.{Message, Entropy, new_message}
use vortexmq.Topic
use vortexmq.Topic.{Topic, put_ring, pushed}
use vortexmq.Topic.Enqueue.{publish-accepts}
use vortexmq.Broker.{
  Broker, BrokerWal, put_topic, get_or_create_topic, created, count_published, answered, write_wal,
  submit, publish,
}

module _ {W : Type 0} (io : BrokerWal W) where
  write_wal-topics : (m : Message) (b : Broker W) → (write_wal io m b).0.topics ≡ b.topics
  unfolding write_wal
  write_wal-topics m b =
      elim b.wal
        as (λ x.
          (elim x as (λ _. Broker W × Bool) [
            | none ↦ (b, true)
            | some w ↦ (record b { wal = some (io.write_publish m w).0 }, (io.write_publish m w).1)
          ]).0.topics
          ≡ b.topics) [ none ↦ refl | some w ↦ refl ]

  module _ (name : Bytes) (payload : Option Bytes) (e : Entropy) (b : Broker W) (t : Topic)
      (found : lookup name b.topics ≡ some t) where
    -- The message, and the broker that has counted it.
    abbrev pub made : Message
    made = (new_message name payload e b.sequence).0

    abbrev pub numbered : Broker W
    numbered = record b { sequence = (new_message name payload e b.sequence).1 }

    pub get_or_create_topic-found : get_or_create_topic name b ≡ some (b, t)
    unfolding get_or_create_topic
    get_or_create_topic-found = rw (found, get_or_create_topic) refl

    publish-found :
        publish io name payload e b ≡ some (submit io Topic.publish name (numbered, t, made))
    unfolding publish created
    publish-found =
        ap
          (λ r. Option.map (submit io Topic.publish name) (
            Option.map
              (λ r. (
                record r.0 { sequence = (new_message name payload e r.0.sequence).1 },
                r.1,
                (new_message name payload e r.0.sequence).0,
              ))
              r))
          get_or_create_topic-found

    -- A message that is published by `Publish` on an existing topic and that the log refuses is not enqueued:
    -- no topic changes, and the caller gets an error.
    pub publish-refused :
        (write_wal io made numbered).1 ≡ false
        → (b' : Broker W) × (publish io name payload e b ≡ some (b', none)) × (b'.topics ≡ b.topics)
    unfolding submit
    publish-refused refused = (
      (write_wal io made numbered).0,
      publish-found ∙ ap some (if-false _ _ _ refused),
      write_wal-topics made numbered,
    )

    module _ (d : Deque Message) (f : Refines t.ring d) (open_topic : t.closed ≡ false)
        (open_ring : d.closed ≡ false) where
      -- `Publish` on an existing, open topic whose ring is open and holds the queue `d`, of a message that
      -- the log takes: the caller gets a message with its payload, which the topic's ring takes as the
      -- queue does, behind those of `d`, and every other topic is as it was.
      pub publish-Refines :
          (write_wal io made numbered).1 ≡ true
          → (b' : Broker W) × (t' : Topic) × (m : Message) × (publish io name payload e b
              ≡ some (b', some m))
            × (m.payload ≡ payload)
            × (lookup name b'.topics ≡ some t')
            × Refines t'.ring (do_push m d).0
            × ((other : Bytes) → name ≢ other → lookup other b'.topics ≡ lookup other b.topics)
      unfolding submit answered count_published put_topic new_message Topic.count_published put_ring
      publish-Refines taken = (
        count_published 1 (put_topic name t' (write_wal io made numbered).0),
        t',
        made,
        publish-found
            ∙ ap some (
                if-true _ _ _ taken
                ∙ ap (λ r. answered name made r (write_wal io made numbered).0)
                    (publish-accepts t d f open_topic open_ring made)),
        refl,
        lookup-insert_self name t' (write_wal io made numbered).0.topics,
        (push-Refines made t.ring d f).0,
        λ other different.
            lookup-insert_ne name other t' (write_wal io made numbered).0.topics different
            ∙ ap (lookup other) (write_wal-topics made numbered),
      )
        where
          t' : Topic
          t' = Topic.count_published made (put_ring (Ring.push made t.ring).0 t)
