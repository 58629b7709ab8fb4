-- ===== src/Ring.antt =====
-- internal/queue/ring.go: the circular buffer of messages. An element is a pointer in the source, so
-- a slot holds `none` for nil; what is pushed is never nil. The mutex makes each method atomic.
pub mod Index
pub mod Window
pub mod Holds
pub mod Grow
pub mod Refine
pub mod Pops
pub mod Calls
pub mod New
use vortexmq.Prelude.{
  ℕ, zero, suc, ◌+◌, ◌-◌, ◌*◌, ◌%◌, bit_and, Bool, true, false, not, ◌||◌, Option, none, some, List,
  [], ◌∷◌, ltb, leb, ◌==◌, if◌then◌else◌, get_or, set, replicate, map, word, add64, sub64,
}
use vortexmq.Int.{ℤ, pos, negsuc, is_zero}
use vortexmq.Waiting.{Wait, asleep, expired, woken, wait_forever, wait_until}
use mathlib.Core.Option

-- `RingBuffer`: `head`, `tail`, `mask` and `capacity` are uint64.
pub record Ring {ℓ} (A : Type ℓ) : Type ℓ where
  pub nodes : List (Option A)
  pub head : ℕ
  pub tail : ℕ
  pub mask : ℕ
  pub capacity : ℕ
  pub closed : Bool

-- `for capacity < cap { capacity <<= 1 }`; `none` when the fuel runs out.
unfoldable pub round_up : ℕ → ℕ → ℕ → Option ℕ
round_up zero capacity cap = none
round_up (suc fuel) capacity cap =
    let rest = round_up fuel (capacity * 2 % word) cap in
    if ltb capacity cap then rest else some capacity

-- The capacity past which `Push` drops instead of growing.
abbrev pub max_capacity : ℕ
max_capacity = 16777216

module _ {ℓ} {A : Type ℓ} where
  unfoldable pub fresh : ℕ → Ring A
  fresh capacity = record {
    nodes = replicate capacity none;
    head = 0;
    tail = 0;
    mask = sub64 capacity 1;
    capacity = capacity;
    closed = false;
  }

  -- `NewRingBuffer`, with the loop's fuel.
  unfoldable pub new_with : ℕ → ℕ → Option (Ring A)
  new_with fuel cap =
      Option.map (λ capacity. fresh (if ltb capacity 1024 then 1024 else capacity))
        (round_up fuel 1 cap)

  unfoldable pub len : Ring A → ℕ
  len r = sub64 r.tail r.head

  unfoldable pub cap : Ring A → ℕ
  cap r = r.capacity

  abbrev pub is_empty : Ring A → Bool
  is_empty r = r.head == r.tail

  abbrev pub is_full : Ring A → Bool
  is_full r = leb r.capacity (sub64 r.tail r.head)

  -- The loop of `grow`: `n` rounds from `i` on.
  unfoldable pub copy_from : Ring A → ℕ → ℕ → List (Option A) → List (Option A)
  copy_from r zero i dst = dst
  copy_from r (suc n) i dst =
      copy_from r n (i + 1) (set dst i (get_or r.nodes (bit_and (add64 r.head i) r.mask) none))

  unfoldable pub grow : Ring A → Ring A
  grow r = record r {
    nodes = copy_from r count 0 (replicate new_cap none);
    capacity = new_cap;
    mask = sub64 new_cap 1;
    head = 0;
    tail = count;
  }
    where
      new_cap : ℕ
      new_cap = r.capacity * 2 % word

      count : ℕ
      count = sub64 r.tail r.head

  -- The two `if rb.tail-rb.head >= rb.capacity` blocks.
  unfoldable pub make_room : Ring A → Ring A
  make_room r =
      if is_full r
      then (if leb max_capacity r.capacity then record r { head = add64 r.head 1 } else grow r)
      else r

  unfoldable pub make_room_front : Ring A → Ring A
  make_room_front r =
      if is_full r
      then (if leb max_capacity r.capacity then record r { tail = sub64 r.tail 1 } else grow r)
      else r

  unfoldable pub store : A → Ring A → Ring A
  store x r = record r {
    nodes = set r.nodes (bit_and r.tail r.mask) (some x);
    tail = add64 r.tail 1;
  }

  unfoldable pub store_front : A → Ring A → Ring A
  store_front x r = record r {
    nodes = set r.nodes (bit_and (sub64 r.head 1) r.mask) (some x);
    head = sub64 r.head 1;
  }

  unfoldable pub push : A → Ring A → Ring A × Bool
  push x r = if r.closed then (r, false) else (store x (make_room r), true)

  unfoldable pub push_front : A → Ring A → Ring A × Bool
  push_front x r = if r.closed then (r, false) else (store_front x (make_room_front r), true)

  -- Reads the head's slot, clears it and steps on; the body that the pops share.
  unfoldable pub take_head : Ring A → Ring A × Option A
  take_head r = (
    record r { nodes = set r.nodes (bit_and r.head r.mask) none; head = add64 r.head 1 },
    get_or r.nodes (bit_and r.head r.mask) none,
  )

  -- The outer `none` is `(nil, false)`; the inner option is the pointer that was in the slot.
  unfoldable pub pop : Ring A → Ring A × Option (Option A)
  pop r = if is_empty r then (r, none) else (let (r', x) = take_head r in (r', some x))

  -- `for i := 0; i < count; i++` of `PopBatch`.
  unfoldable pub pop_loop : ℕ → Ring A → Ring A × List (Option A)
  pop_loop zero r = (r, [])
  pop_loop (suc n) r = let (r', x) = take_head r in let (r'', xs) = pop_loop n r' in (r'', x ∷ xs)

  unfoldable pub pop_up_to : ℕ → Ring A → Ring A × List (Option A)
  pop_up_to limit r = pop_loop (if ltb (len r) limit then len r else limit) r

  unfoldable pub pop_batch : ℤ → Ring A → Ring A × List (Option A)
  pop_batch (negsuc _) r = (r, [])
  pop_batch (pos limit) r =
      if limit == 0 then (r, []) else if len r == 0 then (r, []) else pop_up_to limit r

  unfoldable pub close : Ring A → Ring A
  close r = record r { closed = true }

-- The test of the waiting loops.
abbrev pub is_ready {ℓ} : {A : Type ℓ} → Ring A → Bool
is_ready r = not (is_empty r) || r.closed

-- What `PopWait` has come to: the goroutine still sleeps, or it has returned as `pop` does.
pub data Popped {ℓ} (S A : Type ℓ) : Type ℓ where
  waiting : S → Popped S A
  returned : S → Option (Option A) → Popped S A

module _ {ℓ} {S A : Type ℓ} (ring : S → Ring A) (put : Ring A → S → S) where
  unfoldable pub finish : Wait S → Popped S A
  finish (asleep s) = waiting s
  finish (expired s) = returned s none
  finish (woken s) = let (r, x) = pop (ring s) in returned (put r s) x

  -- `PopWait` on the ring that an object `S` holds. The list holds what each wake-up finds: the
  -- time that remained before the sleep, and the object as the rest of the program left it.
  unfoldable pub pop_wait : ℤ → S → List (ℤ × S) → Popped S A
  pop_wait timeout s wakes =
      if is_zero timeout
      then finish (wait_forever (λ s'. is_ready (ring s')) s (map (λ w. w.1) wakes))
      else finish (wait_until (λ s'. is_ready (ring s')) s wakes)
