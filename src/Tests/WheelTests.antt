-- ===== src/Tests/WheelTests.antt =====
-- internal/queue/timingwheel.go on a wheel of three slots.
use mathlib.Core.List.{Perm}
use vortexmq.Prelude.{ℕ, ◌≡◌, refl, arith, false, [], ◌∷◌, ◌==◌, if◌then◌else◌}
use vortexmq.Int.{pos}
use vortexmq.Wheel.{Wheel, add, advance, run, schedule, sweep, target_slot, ticks_of}
use vortexmq.Wheel.Due.{IsValid}
use vortexmq.Wheel.Run.{IsTick, fired, run-add}

abbrev wheel : Wheel ℕ
wheel = record {
  interval = 10;
  slots = 3;
  buckets = [] ∷ (record { msg = 1; rounds = 0 } ∷ []) ∷ [] ∷ [];
  current_slot = 1;
  closed = false;
}

wheel-IsValid : IsValid wheel
wheel-IsValid = omega arith

delayed_run : (run 6 (add 7 (pos 45) wheel).0).1 ≡ (1 ∷ []) ∷ [] ∷ [] ∷ [] ∷ (7 ∷ []) ∷ [] ∷ []
unfolding run add advance schedule sweep target_slot ticks_of
delayed_run = refl

-- A delay of half an interval.
run-add_example :
    (t : ℕ) × IsTick 10 5 t
    × ((add 7 (pos 5) wheel).1 ≡ [])
    × Perm
        (fired 6 1 (add 7 (pos 5) wheel).0)
        (if 1 == t then 7 ∷ fired 6 1 wheel else fired 6 1 wheel)
run-add_example = run-add 7 5 6 1 wheel wheel-IsValid refl (omega arith) (omega arith)
