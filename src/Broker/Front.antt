-- ===== src/Broker/Front.antt =====
-- internal/queue/broker.go, PublishFront: what becomes of a message, from the log to the topic's ring.
use mathlib.Core.Option
use vortexmq.Prelude.{
  true, false, Option, some, Bytes, lookup, lookup-insert_self, if-true, ◌≡◌, refl, ap, ◌∙◌,
}
use vortexmq.Ring
use vortexmq.Ring.Refine.{Refines, push_front-Refines}
use vortexmq.Deque.{Deque, do_push_front}
use vortexmq.Message.{Message, Entropy, new_message}
use vortexmq.Topic
use vortexmq.Topic.{Topic, put_ring, pushed}
use vortexmq.Topic.Enqueue.{publish_front-accepts}
use vortexmq.Broker.{
  Broker, BrokerWal, put_topic, created, count_published, answered, write_wal, submit,
  publish_front,
}
use vortexmq.Broker.Publish.{made, numbered, get_or_create_topic-found}

module _ {W : Type 0} (io : BrokerWal W) (name : Bytes) (payload : Option Bytes) (e : Entropy)
    (b : Broker W) (t : Topic) (found : lookup name b.topics ≡ some t) where
  abbrev newest : Message
  newest = made io name payload e b t found

  abbrev counted : Broker W
  counted = numbered io name payload e b t found

  publish_front-found :
      publish_front io name payload e b
      ≡ some (submit io Topic.publish_front name (counted, t, newest))
  unfolding publish_front created
  publish_front-found =
      ap
        (λ r. Option.map (submit io Topic.publish_front name) (
          Option.map
            (λ r. (
              record r.0 { sequence = (new_message name payload e r.0.sequence).1 },
              r.1,
              (new_message name payload e r.0.sequence).0,
            ))
            r))
        (get_or_create_topic-found io name payload e b t found)

  module _ (d : Deque Message) (f : Refines t.ring d) (open_topic : t.closed ≡ false)
      (open_ring : d.closed ≡ false) where
    -- A message that the log takes, on an open topic whose ring holds the queue `d`: the caller gets a
    -- message with its payload, which the topic's ring holds in front of those of `d`.
    pub publish_front-Refines :
        (write_wal io newest counted).1 ≡ true
        → (b' : Broker W) × (t' : Topic) × (m : Message) × (publish_front io name payload e b
            ≡ some (b', some m))
          × (m.payload ≡ payload)
          × (lookup name b'.topics ≡ some t')
          × Refines t'.ring (do_push_front m d).0
    unfolding submit answered count_published put_topic new_message Topic.count_published put_ring
    publish_front-Refines taken = (
      count_published 1 (put_topic name t' (write_wal io newest counted).0),
      t',
      newest,
      publish_front-found
          ∙ ap some (
              if-true _ _ _ taken
              ∙ ap (λ r. answered name newest r (write_wal io newest counted).0)
                  (publish_front-accepts t d f open_topic open_ring newest)),
      refl,
      lookup-insert_self name t' (write_wal io newest counted).0.topics,
      (push_front-Refines newest t.ring d f).0,
    )
      where
        t' : Topic
        t' = Topic.count_published newest (put_ring (Ring.push_front newest t.ring).0 t)
