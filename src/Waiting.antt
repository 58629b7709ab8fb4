-- ===== src/Waiting.antt =====
-- The waiting loops of internal/queue/ring.go (PopWait): what a goroutine that sleeps on a condition
-- variable does, given what the rest of the program leaves behind at each wake-up; and what the loops of
-- internal/wal/wal.go (periodicFsync) and internal/queue/broker.go (runSweepLoop) receive.
use vortexmq.Prelude.{Bool, List, [], ◌∷◌, if◌then◌else◌}
use vortexmq.Int.{ℤ, pos, ltb_ℤ}

-- How a wait stands: still asleep, ended by its deadline, or ended because the test holds.
pub data Wait {ℓ} (S : Type ℓ) : Type ℓ where
  asleep : S → Wait S
  expired : S → Wait S
  woken : S → Wait S

-- What the `select` of a loop with a ticker receives.
pub data Turn : Type 0 where
  ticks : Turn
  quits : Turn

-- `for !ready { cond.Wait() }`: the list holds the state at each wake-up.
unfoldable pub wait_forever {ℓ} : {S : Type ℓ} → (S → Bool) → S → List S → Wait S
wait_forever ready s [] = if ready s then woken s else asleep s
wait_forever ready s (s' ∷ wakes) =
    let rest = wait_forever ready s' wakes in if ready s then woken s else rest

-- The loop with a deadline: each round also has the time that remains before it sleeps.
unfoldable pub wait_until {ℓ} : {S : Type ℓ} → (S → Bool) → S → List (ℤ × S) → Wait S
wait_until ready s [] = if ready s then woken s else asleep s
wait_until ready s ((remaining, s') ∷ wakes) =
    let rest = wait_until ready s' wakes in
    if ready s then woken s else if ltb_ℤ (pos 0) remaining then rest else expired s
