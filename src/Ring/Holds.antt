-- ===== src/Ring/Holds.antt =====
-- The representation invariant of internal/queue/ring.go, with the list of elements that a ring
-- stands for, oldest first, and what each step of the code does to that list.
use native.Mathlib.Nat.{mod-lt, add-mod_right, mod-add-mod}
use mathlib.Core.List.{map-append}
use vortexmq.Prelude.{
  ℕ, suc, ◌+◌, ◌-◌, ◌%◌, ◌^◌, ◌≤◌, ◌<◌, ◌≡◌, refl, ap, ap₂, ◌∙◌, sym, arith, Option, none, some,
  Bool, List, [], ◌∷◌, ◌++◌, map, get_or, set, tail, subst, get_or-set_self, snoc-injective, length,
  length-set, length-append, word, add64, sub64, bit_and,
}
use vortexmq.Ring.{Ring, store, store_front}
use vortexmq.Ring.Index.{mask-wrapped, mask-counter, sub64-add}
use vortexmq.Ring.Window.{window, window-mod, window-suc, window-set_outside, window-set_end}

-- The buffer has a power of two of slots, and the mask is its low bits.
pub record IsShaped {ℓ} {A : Type ℓ} (r : Ring A) : Type ℓ where
  pub log : ℕ
  pub log_le : log ≤ 63
  pub capacity_eq : r.capacity ≡ 2 ^ log
  pub capacity_le : r.capacity ≤ 2 ^ 63
  pub capacity_pos : 0 < r.capacity
  pub mask_eq : r.mask ≡ 2 ^ log - 1
  pub storage : length r.nodes ≡ r.capacity

pub record Holds {ℓ} {A : Type ℓ} (r : Ring A) (q : List A) : Type ℓ where
  pub shape : IsShaped r
  pub head_word : r.head < word
  pub tail_eq : r.tail ≡ (r.head + length q) % word
  pub fits : length q ≤ r.capacity
  pub items : window r.nodes r.capacity r.head (length q) ≡ map some q

module _ {ℓ} {A : Type ℓ} (r : Ring A) (s : IsShaped r) where
  pub slot_lem : (x : ℕ) → bit_and x r.mask ≡ x % r.capacity
  slot_lem x = mask-counter s.log x r.mask s.mask_eq ∙ ap (λ c. x % c) (sym s.capacity_eq)

  pub slot-wrapped : (x : ℕ) → bit_and (x % word) r.mask ≡ x % r.capacity
  slot-wrapped x =
      mask-wrapped s.log x r.mask (omega (arith, s.log_le)) s.mask_eq
      ∙ ap (λ c. x % c) (sym s.capacity_eq)

  pub wrapped-mod : (x : ℕ) → x % word % r.capacity ≡ x % r.capacity
  wrapped-mod x = sym (slot_lem (x % word)) ∙ slot-wrapped x

  -- A step back and a step on meet at the same slot.
  pub back-mod : (x : ℕ) → x < word → (sub64 x 1 + 1) % r.capacity ≡ x % r.capacity
  back-mod x lt = sym (wrapped-mod (sub64 x 1 + 1)) ∙ ap (λ y. y % r.capacity) (omega arith)

  pub moved-IsShaped :
      (nodes : List (Option A)) (h t : ℕ)
      → length nodes ≡ length r.nodes
      → IsShaped (record r { nodes = nodes; head = h; tail = t })
  moved-IsShaped nodes h t e = record {
    log = s.log;
    log_le = s.log_le;
    capacity_eq = s.capacity_eq;
    capacity_le = s.capacity_le;
    capacity_pos = s.capacity_pos;
    mask_eq = s.mask_eq;
    storage = e ∙ s.storage;
  }

module _ {ℓ} {A : Type ℓ} (r : Ring A) (q : List A) (h : Holds r q) where
  pub count_lem : sub64 r.tail r.head ≡ length q
  count_lem =
      ap (λ t. sub64 t r.head) h.tail_eq
      ∙ sub64-add r.head (length q) h.head_word (omega (arith, h.fits, h.shape.capacity_le))

  pub store-Holds : (x : A) → length q < r.capacity → Holds (store x r) (q ++ (x ∷ []))
  unfolding store
  store-Holds x room = record {
    shape =
        moved-IsShaped r h.shape (set r.nodes (bit_and r.tail r.mask) (some x)) r.head
          (add64 r.tail 1) (length-set r.nodes (bit_and r.tail r.mask) (some x));
    head_word = h.head_word;
    tail_eq = omega (arith, h.tail_eq, length-append q (x ∷ []));
    fits = omega (arith, length-append q (x ∷ []));
    items =
        ap (window (set r.nodes (bit_and r.tail r.mask) (some x)) r.capacity r.head) count
        ∙ ap (λ i. window (set r.nodes i (some x)) r.capacity r.head (suc (length q))) slot
        ∙ window-set_end r.nodes (some x) r.capacity r.head (length q)
            (omega (arith, h.shape.storage)) room
        ∙ ap (λ xs. xs ++ (some x ∷ [])) h.items
        ∙ sym (map-append some q (x ∷ []));
  }
    where
      count : length (q ++ (x ∷ [])) ≡ suc (length q)
      count = omega (arith, length-append q (x ∷ []))

      slot : bit_and r.tail r.mask ≡ (r.head + length q) % r.capacity
      slot = ap (λ t. bit_and t r.mask) h.tail_eq ∙ slot-wrapped r h.shape (r.head + length q)

  pub store_front-Holds : (x : A) → length q < r.capacity → Holds (store_front x r) (x ∷ q)
  unfolding store_front
  store_front-Holds x room = record {
    shape =
        moved-IsShaped r h.shape (set r.nodes (bit_and head r.mask) (some x)) head r.tail
          (length-set r.nodes (bit_and head r.mask) (some x));
    head_word = omega arith;
    tail_eq = omega (arith, h.tail_eq, h.head_word);
    fits = omega arith;
    items =
        ap (λ i. get_or (put i) (head % c) none ∷ window (put i) c (head + 1) (length q))
          (slot_lem r h.shape head)
        ∙ ap₂ ◌∷◌ (get_or-set_self r.nodes (head % c) (some x) none inside) (
            window-mod (put (head % c)) c (head + 1) r.head (length q) back
            ∙ window-set_outside r.nodes (some x) c r.head (length q) (c - 1) (head % c)
                (omega arith) (omega arith) behind
            ∙ h.items);
  }
    where
      c : ℕ
      c = r.capacity

      head : ℕ
      head = sub64 r.head 1

      put : ℕ → List (Option A)
      put i = set r.nodes i (some x)

      back : (head + 1) % c ≡ r.head % c
      back = back-mod r h.shape r.head h.head_word

      inside : head % c < length r.nodes
      inside = omega (arith, h.shape.storage, mod-lt head {m = c} (omega arith))

      behind : head % c ≡ (r.head + (c - 1)) % c
      behind =
          sym (add-mod_right head c)
          ∙ ap (λ k. k % c) (omega arith)
          ∙ sym (mod-add-mod (head + 1) c (c - 1))
          ∙ ap (λ k. (k + (c - 1)) % c) back
          ∙ mod-add-mod r.head c (c - 1)

  pub skip-Holds :
      (x : A) (xs : List A) → q ≡ x ∷ xs → Holds (record r { head = add64 r.head 1 }) xs
  skip-Holds x xs e = record {
    shape = moved-IsShaped r h.shape r.nodes (add64 r.head 1) r.tail refl;
    head_word = omega arith;
    tail_eq = omega (arith, h.tail_eq, ap length e);
    fits = omega (arith, h.fits, ap length e);
    items =
        window-mod r.nodes r.capacity (add64 r.head 1) (r.head + 1) (length xs)
          (wrapped-mod r h.shape (r.head + 1))
        ∙ ap tail (subst (λ l. window r.nodes r.capacity r.head (length l) ≡ map some l) e h.items);
  }

  pub shorten-Holds :
      (x : A) (xs : List A) → q ≡ xs ++ (x ∷ []) → Holds (record r { tail = sub64 r.tail 1 }) xs
  shorten-Holds x xs e = record {
    shape = moved-IsShaped r h.shape r.nodes r.head (sub64 r.tail 1) refl;
    head_word = h.head_word;
    tail_eq =
        omega
          (arith, h.tail_eq, ap length e, length-append xs (x ∷ []), h.fits, h.shape.capacity_le);
    fits = omega (arith, h.fits, ap length e, length-append xs (x ∷ []));
    items =
        (snoc-injective (window r.nodes r.capacity r.head (length xs)) (map some xs) _ (some x) (
          sym (window-suc r.nodes r.capacity r.head (length xs))
          ∙ ap (window r.nodes r.capacity r.head) count
          ∙ subst (λ l. window r.nodes r.capacity r.head (length l) ≡ map some l) e h.items
          ∙ map-append some xs (x ∷ []))).0;
  }
    where
      count : suc (length xs) ≡ length (xs ++ (x ∷ []))
      count = omega (arith, length-append xs (x ∷ []))

-- Nothing but the closed mark differs.
pub closed-Holds {ℓ} :
    {A : Type ℓ} (r : Ring A) (q : List A) (b : Bool)
    → Holds r q
    → Holds (record r { closed = b }) q
closed-Holds r q b h = record {
  shape = record {
    log = h.shape.log;
    log_le = h.shape.log_le;
    capacity_eq = h.shape.capacity_eq;
    capacity_le = h.shape.capacity_le;
    capacity_pos = h.shape.capacity_pos;
    mask_eq = h.shape.mask_eq;
    storage = h.shape.storage;
  };
  head_word = h.head_word;
  tail_eq = h.tail_eq;
  fits = h.fits;
  items = h.items;
}
