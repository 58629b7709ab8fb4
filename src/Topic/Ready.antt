-- ===== src/Topic/Ready.antt =====
-- internal/queue/topic.go: ConsumeWait on a topic in which a message waits.
use mathlib.Core.Option
use vortexmq.Prelude.{
  Bool, true, false, not, ◌||◌, Option, some, List, [], ◌∷◌, map, if-true, if◌then◌else◌, ◌≡◌, ap,
  ◌∙◌,
}
use vortexmq.Int.{ℤ, is_zero}
use vortexmq.Waiting.{wait_forever, wait_until, woken}
use vortexmq.Ring
use vortexmq.Ring.{Ring, is_ready, is_empty, pop_wait, finish, returned}
use vortexmq.Ring.Refine.{Refines}
use vortexmq.Ring.Pops.{pop-Refines, is_empty-cons}
use vortexmq.Deque.{Deque, do_pop-cons}
use vortexmq.Message.{Message}
use vortexmq.Topic
use vortexmq.Topic.{Topic, put_ring, returned_some, waited}

module _ {ℓ} {S : Type ℓ} (ready : S → Bool) (s : S) (h : ready s ≡ true) where
  wait_forever-ready : (wakes : List S) → wait_forever ready s wakes ≡ woken s
  unfolding wait_forever
  wait_forever-ready [] = if-true _ _ _ h
  wait_forever-ready (w ∷ wakes) = if-true _ _ _ h

  wait_until-ready : (wakes : List (ℤ × S)) → wait_until ready s wakes ≡ woken s
  unfolding wait_until
  wait_until-ready [] = if-true _ _ _ h
  wait_until-ready ((remaining, w) ∷ wakes) = if-true _ _ _ h

if-same : {A : Type 0} (b : Bool) (x y z : A) → x ≡ z → y ≡ z → (if b then x else y) ≡ z
if-same true x y z p q = p
if-same false x y z p q = q

module _ (t : Topic) (d : Deque Message) (f : Refines t.ring d) (m : Message) (ms : List Message)
    (waiting : d.items ≡ m ∷ ms) where
  is_ready-waiting : is_ready t.ring ≡ true
  is_ready-waiting =
      ap (λ e. not e || t.ring.closed) (is_empty-cons t.ring d.items f.holds m ms waiting)

  pub consume_wait-waiting :
      (timeout : ℤ) (wakes : List (ℤ × Topic))
      → Topic.consume_wait timeout t wakes
        ≡ returned_some (Topic.count_consumed m (put_ring (Ring.pop t.ring).0 t)) m
  unfolding Topic.consume_wait pop_wait finish waited Topic.taken
  consume_wait-waiting timeout wakes =
      ap waited (
        if-same (is_zero timeout) _ _ (finish (λ s. s.ring) put_ring (woken t))
          (ap (finish (λ s. s.ring) put_ring)
            (wait_forever-ready (λ s. is_ready s.ring) t is_ready-waiting (map (λ w. w.1) wakes)))
          (ap (finish (λ s. s.ring) put_ring)
            (wait_until-ready (λ s. is_ready s.ring) t is_ready-waiting wakes)))
      ∙ ap (Topic.taken (put_ring (Ring.pop t.ring).0 t)) popped
    where
      popped : (Ring.pop t.ring).1 ≡ some (some m)
      popped =
          (pop-Refines t.ring d f).1
          ∙ ap (λ (p : Deque Message × Option Message). Option.map some p.1)
              (do_pop-cons d m ms waiting)
