-- ===== src/Group/Backoff.antt =====
-- internal/queue/consumer_group.go: how long a failed message waits, and when it is given up.
use mathlib.Core.Option
use native.Mathlib.Nat.{pow-le-pow_right}
use vortexmq.Prelude.{
  ℕ, zero, suc, ◌+◌, ◌-◌, ◌*◌, ◌%◌, ◌^◌, ◌≤◌, ◌<◌, ◌≡◌, ap, ◌∙◌, arith, min, Option, some, dec_lt,
  pow-add, ltb, lt→ltb, not-ltb, if◌then◌else◌, if-true, if-false, word, Bytes,
}
use vortexmq.Int.{pos, ◌-ℤ◌, wrap64, of_word}
use vortexmq.Message.{Message}
use vortexmq.Group.{Action, backoff, backoff_at, backoff_raw, clipped, failed, settle}

-- 100 ms in nanoseconds
abbrev base : ℕ
base = 100000000

abbrev limit : ℕ
limit = 10000000000

minus_one : (n : ℕ) → suc n < 2 ^ 63 → wrap64 (pos (suc n) -ℤ pos 1) ≡ pos n
unfolding ◌-ℤ◌ wrap64
minus_one n h = ground arith

shifted : ℕ → ℕ
shifted n = if ltb n 64 then 2 ^ n else 0

raw_of : (n t : ℕ) → shifted n ≡ t → backoff_raw n ≡ of_word (100 * t * 1000000 % word)
unfolding backoff_raw shifted
raw_of n t e = ap (λ k. of_word (100 * k * 1000000 % word)) e

raw_small : (n : ℕ) → n ≤ 36 → backoff_raw n ≡ pos (base * 2 ^ n)
unfolding shifted of_word
raw_small n h =
    raw_of n (2 ^ n) (if-true (ltb n 64) _ _ (lt→ltb n 64 (omega arith)))
    ∙ ap of_word fits
    ∙ if-true (ltb (base * 2 ^ n) (2 ^ 63)) _ _
        (lt→ltb (base * 2 ^ n) (2 ^ 63) (omega (arith, bound)))
  where
    bound : 2 ^ n ≤ 2 ^ 36
    bound = pow-le-pow_right {n = 2} (omega arith) h

    fits : 100 * 2 ^ n * 1000000 % word ≡ base * 2 ^ n
    fits = omega (arith, bound)

clipped_lem : (x : ℕ) → clipped (pos x) ≡ pos (min x limit)
unfolding clipped
clipped_lem x = ground arith

-- Up to the 37th retry the backoff is 100 ms times 2 ^ (retries - 1), and 10 s at most.
pub backoff_lem : (n : ℕ) → n ≤ 36 → backoff (pos (suc n)) ≡ some (pos (min (base * 2 ^ n) limit))
unfolding backoff backoff_at
backoff_lem n h =
    ap backoff_at (minus_one n (omega arith))
    ∙ ap (λ d. some (clipped d)) (raw_small n h)
    ∙ ap some (clipped_lem (base * 2 ^ n))

raw_zero : (n : ℕ) → 56 ≤ n → backoff_raw n ≡ pos 0
unfolding shifted of_word
raw_zero n h = elim (dec_lt n 64) [
  | yes p ↦
      raw_of n (2 ^ 56 * 2 ^ (n - 56)) (if-true (ltb n 64) _ _ (lt→ltb n 64 p) ∙ split)
      ∙ ap of_word gone
  | no p ↦ raw_of n 0 (if-false (ltb n 64) _ _ (not-ltb n 64 (omega arith)))
]
  where
    sum : n ≡ 56 + (n - 56)
    sum = omega arith

    split : 2 ^ n ≡ 2 ^ 56 * 2 ^ (n - 56)
    split = ap (λ (k : ℕ). 2 ^ k) sum ∙ pow-add 56 (n - 56)

    gone : 100 * (2 ^ 56 * 2 ^ (n - 56)) * 1000000 % word ≡ 0
    gone = omega arith

-- From the 57th retry on the multiplication has wrapped to 0: such a message is retried at once.
pub backoff-zero : (n : ℕ) → 56 ≤ n → suc n < 2 ^ 63 → backoff (pos (suc n)) ≡ some (pos 0)
unfolding backoff backoff_at clipped
backoff-zero n h lt = ap backoff_at (minus_one n lt) ∙ ap (λ d. some (clipped d)) (raw_zero n h)

-- `n` failures in a row.
pub failures : ℕ → Message → Bytes → Message
failures zero m reason = m
failures (suc n) m reason = failures n (failed m reason) reason

-- What the `n`-th failure does to a message, the first being number 1.
abbrev pub fate : ℕ → Message → Bytes → Option Action
fate n m reason = settle (failures n m reason) reason
