-- ===== src/Wheel/Run.antt =====
-- internal/queue/timingwheel.go: which tick of `run` lets a scheduled message go.
use mathlib.Core.List.{Perm}
use mathlib.Core.List.Perm
use native.Mathlib.Nat.{div-add-mod, mod-lt, mul_comm}
use vortexmq.Prelude.{
  ℕ, zero, suc, ◌+◌, ◌*◌, ◌/◌, ◌%◌, ◌<◌, ◌≤◌, ◌⊎◌, ◌≡◌, refl, sym, subst, ap, ◌∙◌, arith, inl, inr,
  false, ℕ_discrete, if-true, List, [], ◌∷◌, ◌==◌, if◌then◌else◌, if-false, Bool-cases, get_or,
}
use vortexmq.Int.{pos}
use vortexmq.Wheel.{Wheel, schedule, ticks_of, add, advance, run}
use vortexmq.Wheel.Due.{
  IsValid, due, nearer, perm_of_eq, advance-expired, advance-IsValid, closed-advance, due-schedule,
  schedule-IsValid,
}

-- The tick of a delay, counted from 0 at the next one: the last that is no later than the delay, where
-- ticks are an interval apart and the next one counts as now; and never the next one itself.
abbrev pub IsTick : ℕ → ℕ → ℕ → Type 0
IsTick interval delay t =
    (0 < t) × (delay < t * interval + interval) × ((t ≡ 1) ⊎ (t * interval ≤ delay))

module _ {ℓ} {A : Type ℓ} where
  -- The messages that the `k`-th of `n` ticks lets go, counted from 0.
  abbrev pub fired : ℕ → ℕ → Wheel A → List A
  fired n k w = get_or (run n w).1 k []

  run-live :
      (n : ℕ) (w : Wheel A)
      → w.closed ≡ false
      → run (suc n) w ≡ ((run n (advance w).0).0, (advance w).1 ∷ (run n (advance w).0).1)
  unfolding run
  run-live n w e = if-false w.closed _ _ e

  -- Every tick of an open wheel lets go exactly what was due at it.
  pub run-due :
      (n k : ℕ) (w : Wheel A) → IsValid w → w.closed ≡ false → k < n → Perm (fired n k w) (due w k)
  run-due zero k w v e h = absurd (omega arith)
  run-due (suc n) zero w v e h =
      perm_of_eq (ap (λ p. get_or p.1 0 []) (run-live n w e) ∙ advance-expired w v)
  run-due (suc n) (suc k) w v e h =
      Perm.trans (perm_of_eq (ap (λ p. get_or p.1 (suc k) []) (run-live n w e))) (
        Perm.trans
          (run-due n k (advance w).0 (advance-IsValid w v) (closed-advance w v ∙ e) (omega arith))
          (Perm.trans (nearer w v k) (perm_of_eq (ap (due w) (omega arith)))))

  add-live :
      (msg : A) (delay : ℕ) (w : Wheel A)
      → 0 < delay
      → w.closed ≡ false
      → add msg (pos delay) w ≡ (schedule msg (ticks_of w delay) w, [])
  unfolding add
  add-live msg delay w h e = if-false (delay == 0) _ _ (ground arith) ∙ if-false w.closed _ _ e

  closed-schedule :
      (msg : A) (ticks : ℕ) (w : Wheel A) → w.closed ≡ false → (schedule msg ticks w).closed ≡ false
  unfolding schedule
  closed-schedule msg ticks w e = e

  ticks_of-IsTick :
      (w : Wheel A) (delay : ℕ) → 0 < w.interval → IsTick w.interval delay (ticks_of w delay)
  unfolding ticks_of
  ticks_of-IsTick w delay h = elim (ℕ_discrete (delay / w.interval) 0) [
    | yes z ↦
        subst (IsTick w.interval delay) (sym (if-true (delay / w.interval == 0) _ _ (ground arith)))
          (omega arith, omega (arith, split, last, ap (λ q. w.interval * q) z), inl refl)
    | no z ↦
        subst (IsTick w.interval delay)
          (sym (if-false (delay / w.interval == 0) _ _ (ground arith)))
          (omega arith, omega (arith, split, last, turn), inr (omega (arith, split, last, turn)))
  ]
    where
      split : w.interval * (delay / w.interval) + delay % w.interval ≡ delay
      split = div-add-mod delay w.interval

      last : delay % w.interval < w.interval
      last = mod-lt delay h

      turn : (delay / w.interval) * w.interval ≡ w.interval * (delay / w.interval)
      turn = mul_comm (delay / w.interval) w.interval

  -- A message that is added with a positive delay to an open wheel goes off at exactly one tick, with
  -- whatever else goes off there; no other tick changes, and nothing goes off at once. Counted from 0 at
  -- the next tick, that is tick t with t intervals ≤ delay < t + 1 intervals, or tick 1 for a delay that is
  -- shorter than an interval.
  pub run-add :
      (msg : A) (delay n k : ℕ) (w : Wheel A)
      → IsValid w
      → w.closed ≡ false
      → 0 < delay
      → k < n
      → (t : ℕ) × IsTick w.interval delay t
        × ((add msg (pos delay) w).1 ≡ [])
        × Perm
            (fired n k (add msg (pos delay) w).0)
            (if k == t then msg ∷ fired n k w else fired n k w)
  run-add msg delay n k w v e h lt = (
    ticks,
    ticks_of-IsTick w delay v.has_interval,
    ap (λ p. p.1) (add-live msg delay w h e),
    Perm.trans (perm_of_eq (ap (λ p. fired n k p.0) (add-live msg delay w h e))) (
        Perm.trans
          (run-due n k w' (schedule-IsValid w v msg ticks) (closed-schedule msg ticks w e) lt)
          (Perm.trans (perm_of_eq (due-schedule w v msg ticks k)) back)),
  )
    where
      ticks : ℕ
      ticks = ticks_of w delay

      w' : Wheel A
      w' = schedule msg ticks w

      old : Perm (due w k) (fired n k w)
      old = Perm.symm (run-due n k w v e lt)

      back :
          Perm
            (if k == ticks then msg ∷ due w k else due w k)
            (if k == ticks then msg ∷ fired n k w else fired n k w)
      back = elim (Bool-cases (k == ticks)) [ inl z ↦ rw z (Perm.cons msg old) | inr z ↦ rw z old ]
