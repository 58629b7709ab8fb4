-- ===== src/Ring/Window.antt =====
-- The elements that a circular buffer holds, as a list.
use native.Mathlib.Nat.{mod-lt}
use vortexmq.Prelude.{
  ℕ, zero, suc, ◌+◌, ◌-◌, ◌%◌, ◌≤◌, ◌<◌, ◌≡◌, ◌≢◌, refl, ap, ap₂, ◌∙◌, arith, Option, none, List,
  [], ◌∷◌, ◌++◌, get_or, set, length, get_or-set_self, get_or-set_ne,
}
use vortexmq.Ring.Index.{add-mod-ne, succ-mod}

module _ {ℓ} {A : Type ℓ} where
  -- The `n` slots from counter `h` on, in a buffer of `c` slots.
  abbrev pub window : List (Option A) → ℕ → ℕ → ℕ → List (Option A)
  window nodes c h zero = []
  window nodes c h (suc n) = get_or nodes (h % c) none ∷ window nodes c (h + 1) n

  pub window-mod :
      (nodes : List (Option A)) (c h k n : ℕ)
      → h % c ≡ k % c
      → window nodes c h n ≡ window nodes c k n
  window-mod nodes c h k zero e = refl
  window-mod nodes c h k (suc n) e =
      ap₂ ◌∷◌ (ap (λ i. get_or nodes i none) e)
        (window-mod nodes c (h + 1) (k + 1) n (succ-mod c h k e))

  pub window-suc :
      (nodes : List (Option A)) (c h n : ℕ)
      → window nodes c h (suc n) ≡ window nodes c h n ++ (get_or nodes ((h + n) % c) none ∷ [])
  window-suc nodes c h zero = ap (λ i. get_or nodes (i % c) none ∷ []) (omega arith)
  window-suc nodes c h (suc n) = ap (◌∷◌ (get_or nodes (h % c) none)) (
      window-suc nodes c (h + 1) n
      ∙ ap (λ i. window nodes c (h + 1) n ++ (get_or nodes (i % c) none ∷ [])) (omega arith))

  -- A write outside the window leaves it alone.
  pub window-set_outside :
      (nodes : List (Option A)) (v : Option A) (c h n m i : ℕ)
      → n ≤ m
      → m < c
      → i ≡ (h + m) % c
      → window (set nodes i v) c h n ≡ window nodes c h n
  window-set_outside nodes v c h zero m i p q e = refl
  window-set_outside nodes v c h (suc n) m i p q e =
      ap₂ ◌∷◌ (get_or-set_ne nodes i (h % c) v none apart)
        (window-set_outside nodes v c (h + 1) n (m - 1) i (omega arith) (omega arith) shifted)
    where
      apart : i ≢ h % c
      apart = rw e (add-mod-ne c h m (omega arith) q)

      shifted : i ≡ (h + 1 + (m - 1)) % c
      shifted = e ∙ ap (λ k. k % c) (omega arith)

  -- A write just past the window extends it.
  pub window-set_end :
      (nodes : List (Option A)) (v : Option A) (c h n : ℕ)
      → c ≤ length nodes
      → n < c
      → window (set nodes ((h + n) % c) v) c h (suc n) ≡ window nodes c h n ++ (v ∷ [])
  window-set_end nodes v c h n p q =
      window-suc (set nodes ((h + n) % c) v) c h n
      ∙ ap₂ (λ xs x. xs ++ (x ∷ []))
          (window-set_outside nodes v c h n n ((h + n) % c) (omega arith) q refl)
          (get_or-set_self nodes ((h + n) % c) v none
            (omega (arith, mod-lt (h + n) {m = c} (omega arith))))
