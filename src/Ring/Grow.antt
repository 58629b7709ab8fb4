-- ===== src/Ring/Grow.antt =====
-- `grow` of internal/queue/ring.go: the buffer of twice the size holds the same elements.
use native.Mathlib.Nat.{zero-add, add-zero, mod-eq_of_lt, pow-suc, pow-le-pow_right}
use vortexmq.Prelude.{
  ℕ, zero, suc, ◌+◌, ◌*◌, ◌%◌, ◌≤◌, ◌<◌, ◌≡◌, refl, ap, ap₂, ◌∙◌, sym, arith, Option, none, List,
  [], ◌∷◌, ◌++◌, get_or, set, length, length-set, length-replicate, replicate, word, sub64,
  append-nil, append_assoc, dec_lt,
}
use vortexmq.Ring.{Ring, grow, copy_from, max_capacity}
use vortexmq.Ring.Window.{window, window-set_end}
use vortexmq.Ring.Holds.{IsShaped, Holds, slot-wrapped, count_lem}

module _ {ℓ} {A : Type ℓ} (r : Ring A) (s : IsShaped r) where
  length-copy_from : (n i : ℕ) (dst : List (Option A)) → length (copy_from r n i dst) ≡ length dst
  unfolding copy_from
  length-copy_from zero i dst = refl
  length-copy_from (suc n) i dst = length-copy_from n (i + 1) (set dst i _) ∙ length-set dst i _

  -- The copy appends the next `n` slots of the old buffer to what has been copied.
  window-copy_from :
      (c n i : ℕ) (dst : List (Option A))
      → i + n ≤ c
      → length dst ≡ c
      → window (copy_from r n i dst) c 0 (i + n)
        ≡ window dst c 0 i ++ window r.nodes r.capacity (r.head + i) n
  unfolding copy_from
  window-copy_from c zero i dst p e =
      ap (window dst c 0) (omega arith) ∙ sym (append-nil (window dst c 0 i))
  window-copy_from c (suc n) i dst p e =
      ap (λ k. window (copied (get_or r.nodes k none)) c 0 (i + suc n))
        (slot-wrapped r s (r.head + i))
      ∙ ap (window (copied v) c 0) more
      ∙ window-copy_from c n (i + 1) (set dst i v) (omega arith) (length-set dst i v ∙ e)
      ∙ ap₂ ◌++◌ extended (ap (λ k. window r.nodes r.capacity k n) next)
      ∙ append_assoc (window dst c 0 i) (v ∷ []) (window r.nodes r.capacity (r.head + i + 1) n)
    where
      copied : Option A → List (Option A)
      copied x = copy_from r n (i + 1) (set dst i x)

      v : Option A
      v = get_or r.nodes ((r.head + i) % r.capacity) none

      more : i + suc n ≡ i + 1 + n
      more = omega arith

      next : r.head + (i + 1) ≡ r.head + i + 1
      next = omega arith

      here : i ≡ (0 + i) % c
      here = sym (mod-eq_of_lt {n = 0 + i} {m = c} (omega arith) ∙ omega arith)

      one_more : i + 1 ≡ suc i
      one_more = omega arith

      extended : window (set dst i v) c 0 (i + 1) ≡ window dst c 0 i ++ (v ∷ [])
      extended =
          ap (window (set dst i v) c 0) one_more
          ∙ ap (λ k. window (set dst k v) c 0 (suc i)) here
          ∙ window-set_end dst v c 0 i (omega arith) (omega arith)

module _ {ℓ} {A : Type ℓ} (r : Ring A) (q : List A) (h : Holds r q)
    (small : r.capacity < max_capacity) where
  pub capacity-grow : (grow r).capacity ≡ r.capacity * 2
  unfolding grow
  capacity-grow = omega arith

  pub closed-grow : (grow r).closed ≡ r.closed
  unfolding grow
  closed-grow = refl

  log-lt : h.shape.log < 63
  log-lt = elim (dec_lt h.shape.log 63) [
    | yes p ↦ p
    | no p ↦ absurd (
        omega (
          arith,
          h.shape.capacity_eq,
          pow-le-pow_right {n = 2} (omega arith) {i = 63} {j = h.shape.log} (omega arith),
        ))
  ]

  pub grow-Holds : Holds (grow r) q
  unfolding grow
  grow-Holds = record {
    shape = record {
      log = suc h.shape.log;
      log_le = log-lt;
      capacity_eq = omega (arith, capacity-grow, pow-suc 2 h.shape.log, h.shape.capacity_eq);
      capacity_le = omega (arith, capacity-grow);
      capacity_pos = omega (arith, capacity-grow, h.shape.capacity_pos);
      mask_eq =
          omega (
            arith,
            capacity-grow,
            h.shape.capacity_eq,
            pow-suc 2 h.shape.log,
            h.shape.capacity_pos,
          );
      storage =
          length-copy_from r h.shape (sub64 r.tail r.head) 0 dst ∙ length-replicate new_cap none;
    };
    head_word = omega arith;
    tail_eq = omega (arith, count_lem r q h, h.fits);
    fits = omega (arith, capacity-grow, h.fits);
    items =
        ap (λ k. window (copy_from r k 0 dst) new_cap 0 (length q)) (count_lem r q h)
        ∙ ap (window (copy_from r (length q) 0 dst) new_cap 0) (sym (zero-add (length q)))
        ∙ window-copy_from r h.shape new_cap (length q) 0 dst room (length-replicate new_cap none)
        ∙ ap (λ k. window r.nodes r.capacity k (length q)) (add-zero r.head)
        ∙ h.items;
  }
    where
      new_cap : ℕ
      new_cap = r.capacity * 2 % word

      dst : List (Option A)
      dst = replicate new_cap none

      room : 0 + length q ≤ r.capacity * 2 % word
      room = omega (arith, h.fits)
