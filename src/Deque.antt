-- ===== src/Deque.antt =====
-- What a message buffer promises its clients (internal/queue/ring.go seen from internal/queue/topic.go):
-- a double-ended queue, oldest element first, that doubles its capacity when it is full and, once it
-- has the largest capacity, gives up the element at the other end.
use mathlib.Core.Option
use vortexmq.Prelude.{
  ℕ, ◌*◌, Bool, true, false, Option, none, some, List, [], ◌∷◌, ◌++◌, ◌≡◌, ap, leb, if◌then◌else◌,
  length, tail, map, take, drop, drop_last,
}
use vortexmq.Int.{ℤ, pos, negsuc}

pub record Deque {ℓ} (A : Type ℓ) : Type ℓ where
  pub items : List A
  pub capacity : ℕ
  pub closed : Bool

abbrev pub largest : ℕ
largest = 16777216

pub data Call {ℓ} (A : Type ℓ) : Type ℓ where
  push push_front : A → Call A
  pop : Call A
  pop_batch : ℤ → Call A
  len : Call A
  close : Call A

pub data Reply {ℓ} (A : Type ℓ) : Type ℓ where
  done : Bool → Reply A
  got : Option A → Reply A
  batch : List A → Reply A
  count : ℕ → Reply A

module _ {ℓ} {A : Type ℓ} where
  -- Room for one more at the back, and at the front.
  unfoldable pub room : Deque A → Deque A
  room d =
      if leb d.capacity (length d.items)
      then (if leb largest d.capacity
          then record d { items = tail d.items }
          else record d { capacity = d.capacity * 2 })
      else d

  unfoldable pub room_front : Deque A → Deque A
  room_front d =
      if leb d.capacity (length d.items)
      then (if leb largest d.capacity
          then record d { items = drop_last d.items }
          else record d { capacity = d.capacity * 2 })
      else d

  unfoldable pub do_push : A → Deque A → Deque A × Bool
  do_push x d =
      if d.closed
      then (d, false)
      else (record d { items = (room d).items ++ (x ∷ []); capacity = (room d).capacity }, true)

  unfoldable pub do_push_front : A → Deque A → Deque A × Bool
  do_push_front x d =
      if d.closed
      then (d, false)
      else (record d { items = x ∷ (room_front d).items; capacity = (room_front d).capacity }, true)

  pop_items : Deque A → List A → Deque A × Option A
  pop_items d [] = (d, none)
  pop_items d (x ∷ xs) = (record d { items = xs }, some x)

  unfoldable pub do_pop : Deque A → Deque A × Option A
  unfolding pop_items
  do_pop d = pop_items d d.items

  pub do_pop-nil : (d : Deque A) → d.items ≡ [] → do_pop d ≡ (d, none)
  unfolding do_pop
  do_pop-nil d e = ap (pop_items d) e

  pub do_pop-cons :
      (d : Deque A) (x : A) (xs : List A)
      → d.items ≡ x ∷ xs
      → do_pop d ≡ (record d { items = xs }, some x)
  unfolding do_pop
  do_pop-cons d x xs e = ap (pop_items d) e

  unfoldable pub do_pop_batch : ℤ → Deque A → Deque A × List A
  do_pop_batch (negsuc _) d = (d, [])
  do_pop_batch (pos n) d = (record d { items = drop n d.items }, take n d.items)

  -- One call, with what it returns.
  unfoldable pub serve : Call A → Deque A → Deque A × Reply A
  serve (push x) d = let (d', ok) = do_push x d in (d', done ok)
  serve (push_front x) d = let (d', ok) = do_push_front x d in (d', done ok)
  serve pop d = let (d', x) = do_pop d in (d', got x)
  serve (pop_batch n) d = let (d', xs) = do_pop_batch n d in (d', batch xs)
  serve len d = (d, count (length d.items))
  serve close d = (record d { closed = true }, done true)

  unfoldable pub serve_all : List (Call A) → Deque A → List (Reply A)
  serve_all [] d = []
  serve_all (c ∷ cs) d = let (d', r) = serve c d in r ∷ serve_all cs d'

  unfoldable pub map_reply {κ} : {B : Type κ} → (A → B) → Reply A → Reply B
  map_reply f (done b) = done b
  map_reply f (got x) = got (Option.map f x)
  map_reply f (batch xs) = batch (map f xs)
  map_reply f (count n) = count n
