-- ===== src/Broker/Consume.antt =====
-- internal/queue/broker.go: Consume on a topic in which a message waits.
use vortexmq.Prelude.{
  Option, some, List, ◌∷◌, Bytes, add64, lookup, lookup-insert_self, lookup-insert_ne, ◌≡◌, ◌≢◌,
  refl, ap, ◌∙◌, subst,
}
use vortexmq.Int.{ℤ}
use vortexmq.Ring
use vortexmq.Ring.{Ring, is_ready, is_empty, pop_wait, finish, returned}
use vortexmq.Ring.Refine.{Refines}
use vortexmq.Ring.Pops.{pop-Refines}
use vortexmq.Deque.{Deque, do_pop, do_pop-cons}
use vortexmq.Message.{Message}
use vortexmq.Topic
use vortexmq.Topic.{Topic, put_ring, returned_some, waited}
use vortexmq.Broker
use vortexmq.Broker.{Broker, put_topic, consume, taken}
use vortexmq.Topic.Ready.{consume_wait-waiting}

count_taken : {W : Type 0} → Broker W → Broker W
count_taken b = record b { total_consumed = add64 b.total_consumed 1 }

module _ (t : Topic) (d : Deque Message) (f : Refines t.ring d) (m : Message) (ms : List Message)
    (waiting : d.items ≡ m ∷ ms) where
  module _ {W : Type 0} (name : Bytes) (b : Broker W) (found : lookup name b.topics ≡ some t) where
    consume-found :
        (timeout : ℤ) (wakes : List (ℤ × Topic))
        → consume name timeout b wakes b ≡ taken name b (Topic.consume_wait timeout t wakes)
    unfolding consume
    consume-found timeout wakes = rw (found, consume) refl

    -- While a message waits in a topic, `Consume` on it does not sleep, whatever its timeout: it
    -- returns the oldest one, the ring holds the others in their order, and no other topic changes.
    pub consume-Refines :
        (timeout : ℤ) (wakes : List (ℤ × Topic))
        → (b' : Broker W) × (t' : Topic) × (consume name timeout b wakes b
            ≡ Broker.returned b' (some m))
          × (lookup name b'.topics ≡ some t')
          × Refines t'.ring (record d { items = ms })
          × ((other : Bytes) → name ≢ other → lookup other b'.topics ≡ lookup other b.topics)
    unfolding taken count_taken put_topic Topic.count_consumed put_ring
    consume-Refines timeout wakes = (
      count_taken (put_topic name t' b),
      t',
      consume-found timeout wakes
          ∙ ap (taken name b) (consume_wait-waiting t d f m ms waiting timeout wakes),
      lookup-insert_self name t' b.topics,
      subst (Refines (Ring.pop t.ring).0) rest (pop-Refines t.ring d f).0,
      λ other different. lookup-insert_ne name other t' b.topics different,
    )
      where
        t' : Topic
        t' = Topic.count_consumed m (put_ring (Ring.pop t.ring).0 t)

        rest : (do_pop d).0 ≡ record d { items = ms }
        rest = ap (λ (p : Deque Message × Option Message). p.0) (do_pop-cons d m ms waiting)
