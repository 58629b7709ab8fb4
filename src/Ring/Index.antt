-- ===== src/Ring/Index.antt =====
-- The index arithmetic of internal/queue/ring.go: masks, and counters that wrap at 2 ^ 64.
use native.Mathlib.Nat.{mod-add-mod, mod-eq_of_lt, mod-eq-sub-mod, mod-lt}
use vortexmq.Prelude.{
  ℕ, ◌+◌, ◌-◌, ◌%◌, ◌^◌, ◌≤◌, ◌<◌, ◌≡◌, ◌≢◌, ◌∙◌, sym, arith, dec_lt, bit_and, word, sub64,
  mod-word, bit_and-mask,
}

-- A masked counter is the counter's remainder by the capacity, wrapped or not.
pub mask-wrapped : (k x m : ℕ) → k ≤ 64 → m ≡ 2 ^ k - 1 → bit_and (x % word) m ≡ x % 2 ^ k
mask-wrapped k x m h e = rw e (bit_and-mask k (x % word) ∙ mod-word x k h)

pub mask-counter : (k x m : ℕ) → m ≡ 2 ^ k - 1 → bit_and x m ≡ x % 2 ^ k
mask-counter k x m e = rw e (bit_and-mask k x)

-- Fewer than `c` steps do not come back to the same slot.
pub add-mod-ne : (c h d : ℕ) → 0 < d → d < c → (h + d) % c ≢ h % c
add-mod-ne c h d pos lt e = elim (dec_lt (h % c + d) c) [
  | yes p ↦ omega (arith, mod-add-mod h c d, mod-eq_of_lt p)
  | no p ↦ omega (
    arith,
    mod-add-mod h c d,
    mod-lt h {m = c} (omega arith),
    mod-eq-sub-mod {n = h % c + d} {m = c} (omega arith),
    mod-eq_of_lt {n = h % c + d - c} {m = c} (omega (arith, mod-lt h {m = c} (omega arith))),
  )
]

-- The difference of two counters is the number of steps between them.
pub sub64-add : (h n : ℕ) → h < word → n < word → sub64 ((h + n) % word) h ≡ n
sub64-add h n p q = omega arith

pub succ-mod : (c h k : ℕ) → h % c ≡ k % c → (h + 1) % c ≡ (k + 1) % c
succ-mod c h k e = sym (mod-add-mod h c 1) ∙ rw e (mod-add-mod k c 1)
