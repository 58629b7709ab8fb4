-- ===== src/Prelude/Words.antt =====
-- 64-bit unsigned words as native numbers (uint64 of the source), and masks of ones.
use Prim.Native.Nat.{
  ℕ, zero, suc, ◌+◌, ◌-◌, ◌*◌, ◌/◌, ◌%◌, ◌^◌, ◌≤◌, ◌<◌, ◌∣◌, min, bit_and, digits, bit_and-bitwise,
}
use mathlib.Core.Path.{◌≡◌, sym, ap, ap₂, ◌∙◌}
use native.Mathlib.Nat.{
  pow-zero, pow-suc, mod-mod_of_dvd, add-zero, add-suc, mul-one, mul_assoc, mod-lt, mod-eq_of_lt,
  div-add-mod, add-mul-mod_self_left,
}
use native.Mathlib.Omega.{arith}

abbrev pub word : ℕ
word = 2 ^ 64

abbrev pub add64 : ℕ → ℕ → ℕ
add64 a b = (a + b) % word

abbrev pub sub64 : ℕ → ℕ → ℕ
sub64 a b = (a + word - b) % word

pub pow_pos : (k : ℕ) → 0 < 2 ^ k
pow_pos zero = omega arith
pow_pos (suc k) = omega (arith, pow-suc 2 k, pow_pos k)

pub pow-add : (k d : ℕ) → 2 ^ (k + d) ≡ 2 ^ k * 2 ^ d
pow-add k zero = rw (add-zero, pow-zero, mul-one)
pow-add k (suc d) =
    rw (add-suc, pow-suc 2 (k + d), pow-add k d, pow-suc 2 d) (mul_assoc (2 ^ k) (2 ^ d) 2)

pow-dvd-pow : {k n : ℕ} → k ≤ n → 2 ^ k ∣ 2 ^ n
pow-dvd-pow {k} {n} h =
    let e : k + (n - k) ≡ n = omega arith in ∣ (2 ^ (n - k), rw (← pow-add k (n - k), e)) ∣₁

-- Reading a word by a smaller power of two does not see the wrap.
pub mod-word : (x k : ℕ) → k ≤ 64 → x % word % 2 ^ k ≡ x % 2 ^ k
mod-word x k h = mod-mod_of_dvd (2 ^ k) x (pow-dvd-pow h)

mod-double : (x c : ℕ) → 0 < c → x % (c * 2) ≡ x / 2 % c * 2 + x % 2
mod-double x c h =
    ap (λ t. t % (c * 2)) split
    ∙ add-mul-mod_self_left (x / 2 % c * 2 + x % 2) (c * 2) (x / 2 / c)
    ∙ mod-eq_of_lt (omega (arith, mod-lt (x / 2) h))
  where
    split : x ≡ x / 2 % c * 2 + x % 2 + c * 2 * (x / 2 / c)
    split = omega (arith, ap (λ (t : ℕ). t * 2) (div-add-mod (x / 2) c))

half_mask : (k : ℕ) → (2 ^ suc k - 1) / 2 ≡ 2 ^ k - 1
half_mask k = omega (arith, pow-suc 2 k, pow_pos k)

odd_mask : (k : ℕ) → (2 ^ suc k - 1) % 2 ≡ 1
odd_mask k = omega (arith, pow-suc 2 k, pow_pos k)

-- The digits of a number under a mask, read from the lowest, with fuel for as many as there are.
digits-mask : (fuel k x : ℕ) → x ≤ fuel → digits (λ b. 0) min fuel x (2 ^ k - 1) ≡ x % 2 ^ k
digits-mask zero k x h =
    let e : x ≡ 0 = omega arith in sym (ap (λ y. y % 2 ^ k) e ∙ mod-eq_of_lt (pow_pos k))
digits-mask (suc fuel) k zero h = sym (mod-eq_of_lt (pow_pos k))
digits-mask (suc fuel) zero (suc x) h = omega (arith, digits-mask fuel 0 (suc x / 2) (omega arith))
digits-mask (suc fuel) (suc k) (suc x) h =
    ap₂ (λ a b. digits (λ _. 0) min fuel (suc x / 2) a * 2 + min (suc x % 2) b) (half_mask k)
      (odd_mask k)
    ∙ omega (
      arith,
      digits-mask fuel k (suc x / 2) (omega arith),
      mod-double (suc x) (2 ^ k) (pow_pos k),
      ap (λ t. suc x % t) (pow-suc 2 k),
    )

-- A mask of k ones keeps the remainder by 2 ^ k.
pub bit_and-mask : (k x : ℕ) → bit_and x (2 ^ k - 1) ≡ x % 2 ^ k
bit_and-mask k x = bit_and-bitwise x (2 ^ k - 1) ∙ digits-mask x k x (omega arith)
