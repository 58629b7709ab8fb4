-- ===== src/Wheel.antt =====
-- internal/queue/timingwheel.go: the wheel of delayed messages. A bucket's linked list is a list, its
-- head first; the `prev` pointers are never read. Calls of `onExpire` are the list of messages that an
-- operation returns, in the order of the calls. A nil `onExpire` is not modelled: the only caller,
-- NewTopic, passes a function.
pub mod Due
pub mod Run
use vortexmq.Prelude.{
  ℕ, zero, suc, ◌+◌, ◌-◌, ◌/◌, ◌%◌, Bool, true, false, List, [], ◌∷◌, ◌++◌, ltb, leb, ◌==◌,
  if◌then◌else◌, get_or, set, replicate,
}
use vortexmq.Int.{ℤ, pos, negsuc, leb_ℤ}

-- `timerEntry`
pub record Entry {ℓ} (A : Type ℓ) : Type ℓ where
  pub msg : A
  pub rounds : ℕ

-- `TimingWheel`; `interval` is in nanoseconds.
pub record Wheel {ℓ} (A : Type ℓ) : Type ℓ where
  pub interval : ℕ
  pub slots : ℕ
  pub buckets : List (List (Entry A))
  pub current_slot : ℕ
  pub closed : Bool

positive_or : ℕ → ℤ → ℕ
positive_or default (pos n) = if n == 0 then default else n
positive_or default (negsuc n) = default

module _ {ℓ} {A : Type ℓ} where
  -- `NewTimingWheel`
  unfoldable pub new : ℤ → ℤ → Wheel A
  unfolding positive_or
  new interval slots = record {
    interval = positive_or 50000000 interval;
    slots = positive_or 3600 slots;
    buckets = replicate (positive_or 3600 slots) [];
    current_slot = 0;
    closed = false;
  }

  -- `ticks := int(delay / tw.interval)`, and at least one.
  unfoldable pub ticks_of : Wheel A → ℕ → ℕ
  ticks_of w delay = let ticks = delay / w.interval in if ticks == 0 then 1 else ticks

  unfoldable pub target_slot : Wheel A → ℕ → ℕ
  target_slot w ticks = (w.current_slot + ticks % w.slots) % w.slots

  -- The rest of `Add`: the entry goes to the front of its bucket.
  unfoldable pub schedule : A → ℕ → Wheel A → Wheel A
  schedule msg ticks w = record w {
    buckets = set w.buckets (target_slot w ticks) (
        record { msg = msg; rounds = ticks / w.slots } ∷ get_or w.buckets (target_slot w ticks) []);
  }

  -- `Add`
  unfoldable pub add : A → ℤ → Wheel A → Wheel A × List A
  add msg (negsuc _) w = (w, msg ∷ [])
  add msg (pos delay) w =
      if delay == 0
      then (w, msg ∷ [])
      else if w.closed
      then (w, [])
      else (schedule msg (ticks_of w delay) w, [])

  -- The loop of `advance` over a bucket: `expired` grows at its end, `remaining` at its front.
  unfoldable pub sweep : List (Entry A) → List A → List (Entry A) → List A × List (Entry A)
  sweep [] expired remaining = (expired, remaining)
  sweep (e ∷ es) expired remaining =
      sweep es (if leb e.rounds 0 then expired ++ (e.msg ∷ []) else expired)
        (if leb e.rounds 0 then remaining else record e { rounds = e.rounds - 1 } ∷ remaining)

  -- `advance`, one tick of `run`
  unfoldable pub advance : Wheel A → Wheel A × List A
  advance w =
      let (expired, remaining) = sweep (get_or w.buckets w.current_slot []) [] [] in
      (
        record w {
          buckets = set w.buckets w.current_slot remaining;
          current_slot = (w.current_slot + 1) % w.slots;
        },
        expired,
      )

  -- `Stop`: the ticker no longer drives `run`.
  unfoldable pub stop : Wheel A → Wheel A
  stop w = record w { closed = true }

  -- `run`: ticks come until the wheel is stopped.
  unfoldable pub run : ℕ → Wheel A → Wheel A × List (List A)
  run zero w = (w, [])
  run (suc n) w =
      let rest = run n (advance w).0 in
      if w.closed then (w, []) else (rest.0, (advance w).1 ∷ rest.1)
