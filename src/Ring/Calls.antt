-- ===== src/Ring/Calls.antt =====
-- A client's calls on a message buffer of internal/queue/ring.go, in the order in which the mutex
-- lets them in, against the double-ended queue.
use vortexmq.Prelude.{◌≡◌, refl, ap, ap₂, Option, some, true, List, [], ◌∷◌, map}
use vortexmq.Deque
use vortexmq.Deque.{
  Deque, Call, push, push_front, pop, pop_batch, len, close, Reply, done, got, batch, count,
  map_reply,
}
use vortexmq.Ring
use vortexmq.Ring.{Ring}
use vortexmq.Ring.Holds.{closed-Holds}
use vortexmq.Ring.Refine.{Refines, push-Refines, push_front-Refines}
use vortexmq.Ring.Pops.{pop-Refines, pop_batch-Refines, len-Refines}

module _ {ℓ} {A : Type ℓ} where
  unfoldable pub serve : Call A → Ring A → Ring A × Reply (Option A)
  serve (push x) r = let (r', ok) = Ring.push x r in (r', done ok)
  serve (push_front x) r = let (r', ok) = Ring.push_front x r in (r', done ok)
  serve pop r = let (r', x) = Ring.pop r in (r', got x)
  serve (pop_batch n) r = let (r', xs) = Ring.pop_batch n r in (r', batch xs)
  serve len r = (r, count (Ring.len r))
  serve close r = (Ring.close r, done true)

  unfoldable pub serve_all : List (Call A) → Ring A → List (Reply (Option A))
  serve_all [] r = []
  serve_all (c ∷ cs) r = let (r', a) = serve c r in a ∷ serve_all cs r'

  close-Refines :
      (r : Ring A) (d : Deque A) → Refines r d → Refines (Ring.close r) (record d { closed = true })
  unfolding Ring.close
  close-Refines r d f = record {
    holds = closed-Holds r d.items true f.holds;
    capacity_eq = f.capacity_eq;
    closed_eq = refl;
  }

  serve-Refines :
      (c : Call A) (r : Ring A) (d : Deque A)
      → Refines r d
      → Refines (serve c r).0 (Deque.serve c d).0
        × ((serve c r).1 ≡ map_reply some (Deque.serve c d).1)
  unfolding serve Deque.serve map_reply
  serve-Refines (push x) r d f = let (g, e) = push-Refines x r d f in (g, ap done e)
  serve-Refines (push_front x) r d f = let (g, e) = push_front-Refines x r d f in (g, ap done e)
  serve-Refines pop r d f = let (g, e) = pop-Refines r d f in (g, ap got e)
  serve-Refines (pop_batch n) r d f = let (g, e) = pop_batch-Refines r d f n in (g, ap batch e)
  serve-Refines len r d f = (f, ap count (len-Refines r d f))
  serve-Refines close r d f = (close-Refines r d f, refl)

  -- No sequence of calls tells a ring from the queue that it holds: every answer is the queue's, and
  -- no message that comes out is a nil pointer.
  pub serve_all-Refines :
      (cs : List (Call A)) {r : Ring A} {d : Deque A}
      → Refines r d
      → serve_all cs r ≡ map (map_reply some) (Deque.serve_all cs d)
  unfolding serve_all Deque.serve_all
  serve_all-Refines [] f = refl
  serve_all-Refines (c ∷ cs) {r} {d} f =
      let (g, e) = serve-Refines c r d f in ap₂ ◌∷◌ e (serve_all-Refines cs g)
