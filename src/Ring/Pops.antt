-- ===== src/Ring/Pops.antt =====
-- The pops of internal/queue/ring.go against the double-ended queue.
use mathlib.Core.Option
use mathlib.Core.Path.{subst₂}
use native.Mathlib.Nat.{add-mod_right}
use vortexmq.Prelude.{
  ℕ, zero, suc, ◌+◌, ◌-◌, ◌%◌, ◌≤◌, ◌≡◌, refl, ap, ap₂, ◌∙◌, sym, subst, arith, inl, inr, ◌⊎◌, true,
  false, Option, none, some, List, [], ◌∷◌, ltb, ltb→lt, ltb-false→le, if◌then◌else◌, take-past,
  drop-past, ◌==◌, if-true, if-false, Bool-cases, length, tail, take, drop, map, get_or, set,
  length-set, add64, bit_and,
}
use vortexmq.Int.{ℤ, pos, negsuc}
use vortexmq.Deque.{Deque, do_pop, do_pop-nil, do_pop-cons, do_pop_batch}
use vortexmq.Ring.{Ring, is_empty, take_head, pop, pop_loop, pop_up_to, pop_batch, len}
use vortexmq.Ring.Window.{window, window-mod, window-set_outside}
use vortexmq.Ring.Holds.{Holds, slot_lem, wrapped-mod, moved-IsShaped, count_lem}
use vortexmq.Ring.Refine.{Refines}

module _ {ℓ} {A : Type ℓ} where
  pub List-cases : (q : List A) → (q ≡ []) ⊎ ((x : A) × (xs : List A) × (q ≡ x ∷ xs))
  List-cases [] = inl refl
  List-cases (x ∷ xs) = inr (x, xs, refl)

  head_or : Option A → List (Option A) → Option A
  head_or d [] = d
  head_or d (x ∷ xs) = x

  module _ (r : Ring A) (q : List A) (h : Holds r q) where
    is_empty-nil : q ≡ [] → is_empty r ≡ true
    is_empty-nil e = ground (arith, h.tail_eq, ap length e, h.head_word)

    pub is_empty-cons : (x : A) (xs : List A) → q ≡ x ∷ xs → is_empty r ≡ false
    is_empty-cons x xs e =
        ground (arith, h.tail_eq, ap length e, h.fits, h.shape.capacity_le, h.head_word)

    module _ (x : A) (xs : List A) (e : q ≡ x ∷ xs) where
      here : window r.nodes r.capacity r.head (suc (length xs)) ≡ some x ∷ map some xs
      here = subst (λ l. window r.nodes r.capacity r.head (length l) ≡ map some l) e h.items

      -- The head's slot holds the oldest element, and the ring without it holds the others.
      take_head-value : (take_head r).1 ≡ some x
      unfolding take_head head_or
      take_head-value =
          ap (λ i. get_or r.nodes i none) (slot_lem r h.shape r.head) ∙ ap (head_or none) here

      take_head-Holds : Holds (take_head r).0 xs
      unfolding take_head
      take_head-Holds = record {
        shape =
            moved-IsShaped r h.shape (set r.nodes slot none) (add64 r.head 1) r.tail
              (length-set r.nodes slot none);
        head_word = omega arith;
        tail_eq = omega (arith, h.tail_eq, ap length e);
        fits = omega (arith, h.fits, ap length e);
        items =
            window-mod (set r.nodes slot none) r.capacity (add64 r.head 1) (r.head + 1) (length xs)
              (wrapped-mod r h.shape (r.head + 1))
            ∙ window-set_outside r.nodes none r.capacity (r.head + 1) (length xs) (r.capacity - 1)
                slot (omega (arith, h.fits, ap length e)) (omega (arith, h.shape.capacity_pos))
                behind
            ∙ ap tail here;
      }
        where
          slot : ℕ
          slot = bit_and r.head r.mask

          around : r.head + r.capacity ≡ r.head + 1 + (r.capacity - 1)
          around = omega (arith, h.shape.capacity_pos)

          behind : slot ≡ (r.head + 1 + (r.capacity - 1)) % r.capacity
          behind =
              slot_lem r h.shape r.head
              ∙ sym (add-mod_right r.head r.capacity)
              ∙ ap (λ k. k % r.capacity) around

module _ {ℓ} {A : Type ℓ} (r : Ring A) (d : Deque A) (f : Refines r d) where
  take_head-Refines :
      (x : A) (xs : List A)
      → d.items ≡ x ∷ xs
      → Refines (take_head r).0 (record d { items = xs }) × ((take_head r).1 ≡ some x)
  unfolding take_head
  take_head-Refines x xs e = (
    record {
      holds = take_head-Holds r d.items f.holds x xs e;
      capacity_eq = f.capacity_eq;
      closed_eq = f.closed_eq;
    },
    take_head-value r d.items f.holds x xs e,
  )

  pop-empty : is_empty r ≡ true → pop r ≡ (r, none)
  unfolding pop
  pop-empty e = if-true (is_empty r) _ _ e

  pop-some : is_empty r ≡ false → pop r ≡ ((take_head r).0, some (take_head r).1)
  unfolding pop
  pop-some e = if-false (is_empty r) _ _ e

  abbrev Popped : Ring A × Option (Option A) → Deque A × Option A → Type ℓ
  Popped p e = Refines p.0 e.0 × (p.1 ≡ Option.map some e.1)

  -- `Pop` gives the oldest element, never a nil pointer, and nothing exactly on an empty queue.
  pub pop-Refines : Refines (pop r).0 (do_pop d).0 × ((pop r).1 ≡ Option.map some (do_pop d).1)
  pop-Refines = elim (List-cases d.items) [
    | inl e ↦
        subst₂ Popped (sym (pop-empty (is_empty-nil r d.items f.holds e))) (sym (do_pop-nil d e))
          (f, refl)
    | inr (x, xs, e) ↦
        let (g, v) = take_head-Refines x xs e in
        subst₂ Popped (sym (pop-some (is_empty-cons r d.items f.holds x xs e)))
          (sym (do_pop-cons d x xs e)) (g, ap some v)
  ]

module _ {ℓ} {A : Type ℓ} where
  -- `n` rounds of the batch loop take the `n` oldest elements, in order.
  pop_loop-Refines :
      (n : ℕ) (r : Ring A) (d : Deque A)
      → Refines r d
      → n ≤ length d.items
      → Refines (pop_loop n r).0 (record d { items = drop n d.items })
        × ((pop_loop n r).1 ≡ map some (take n d.items))
  unfolding pop_loop
  pop_loop-Refines zero r d f p = (f, refl)
  pop_loop-Refines (suc n) r d f p = elim (List-cases d.items) [
    | inl e ↦ absurd (omega (arith, ap length e))
    | inr (x, xs, e) ↦
        let (g, v) = take_head-Refines r d f x xs e in
        let (g', v') =
          pop_loop-Refines n (take_head r).0 (record d { items = xs }) g
            (omega (arith, ap length e)) in
        (
          subst (λ l. Refines (pop_loop n (take_head r).0).0 (record d { items = drop (suc n) l }))
              (sym e) g',
          ap₂ ◌∷◌ v v' ∙ ap (λ l. map some (take (suc n) l)) (sym e),
        )
  ]

zero_of : (n : ℕ) → (n == 0) ≡ true → 0 ≡ n
zero_of n e = ground arith

module _ {ℓ} {A : Type ℓ} where
  nil_of_length : (q : List A) → length q ≡ 0 → q ≡ []
  nil_of_length [] e = refl
  nil_of_length (x ∷ q) e = absurd (omega arith)

  -- Taking as many as there are is taking up to the limit.
  up_to :
      (P : ℕ → List A → List A → Type ℓ) (n m : ℕ) (q : List A)
      → m ≡ length q
      → ((k : ℕ) → k ≤ length q → P k (take k q) (drop k q))
      → let k = if ltb m n then m else n in P k (take n q) (drop n q)
  up_to P n m q e h = elim (Bool-cases (ltb m n)) [
    | inl lt ↦
        let le : length q ≤ n = omega (arith, ltb→lt m n lt) in
        rw (lt, e, ← take-past n q le, ← drop-past n q le) (h (length q) (omega arith))
    | inr ge ↦ rw ge (h n (omega (arith, ltb-false→le m n ge)))
  ]

  module _ (r : Ring A) (d : Deque A) (f : Refines r d) where
    pub len-Refines : len r ≡ length d.items
    unfolding len
    len-Refines = count_lem r d.items f.holds

    pop_up_to-Refines :
        (n : ℕ)
        → Refines (pop_up_to n r).0 (record d { items = drop n d.items })
          × ((pop_up_to n r).1 ≡ map some (take n d.items))
    unfolding pop_up_to
    pop_up_to-Refines n =
        up_to
          (λ k xs ys.
            Refines (pop_loop k r).0 (record d { items = ys }) × ((pop_loop k r).1 ≡ map some xs))
          n (len r) d.items len-Refines (λ k p. pop_loop-Refines k r d f p)

    abbrev Batched : Ring A × List (Option A) → Deque A × List A → Type ℓ
    Batched p e = Refines p.0 e.0 × (p.1 ≡ map some e.1)

    none_left : (n : ℕ) → d.items ≡ [] → do_pop_batch (pos n) d ≡ (d, [])
    unfolding do_pop_batch
    none_left zero e = refl
    none_left (suc n) e = λ i. (record d { items = left i }, take (suc n) (e i))
      where
        left : drop (suc n) d.items ≡ d.items
        left = ap (drop (suc n)) e ∙ sym e

    -- `PopBatch` removes and returns the `limit` oldest elements in order, or all if there are fewer,
    -- and none for a limit of zero or less.
    pub pop_batch-Refines :
        (limit : ℤ)
        → Refines (pop_batch limit r).0 (do_pop_batch limit d).0
          × ((pop_batch limit r).1 ≡ map some (do_pop_batch limit d).1)
    unfolding pop_batch do_pop_batch
    pop_batch-Refines (negsuc n) = (f, refl)
    pop_batch-Refines (pos n) = elim (Bool-cases (n == 0)) [
      | inl z ↦
          subst₂ Batched (sym (if-true (n == 0) _ _ z))
            (ap (λ k. (record d { items = drop k d.items }, take k d.items)) (zero_of n z))
            (f, refl)
      | inr nz ↦ elim (Bool-cases (len r == 0)) [
        | inl e ↦
            subst₂ Batched (sym (if-false (n == 0) _ _ nz ∙ if-true (len r == 0) _ _ e))
              (sym
                (none_left n (nil_of_length d.items (sym len-Refines ∙ sym (zero_of (len r) e)))))
              (f, refl)
        | inr e ↦
            subst₂ Batched (sym (if-false (n == 0) _ _ nz ∙ if-false (len r == 0) _ _ e)) refl
              (pop_up_to-Refines n)
      ]
    ]
