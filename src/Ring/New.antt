-- ===== src/Ring/New.antt =====
-- NewRingBuffer of internal/queue/ring.go: the capacity that it rounds up to.
use mathlib.Core.Option
use native.Mathlib.Nat.{pow-suc, pow-le-pow_right}
use vortexmq.Prelude.{
  ℕ, zero, suc, ◌+◌, ◌*◌, ◌%◌, ◌^◌, ◌≤◌, ◌<◌, ◌≡◌, refl, ap, ◌∙◌, arith, inl, inr, false, Option,
  none, some, ltb, lt→ltb, dec_lt, ◌≢◌, ◌⊎◌, ltb→lt, ltb-false→le, if◌then◌else◌, Bool-cases,
  if-true, if-false, word, length-replicate, pow_pos, [],
}
use vortexmq.Ring.{Ring, round_up, fresh, new_with}
use vortexmq.Ring.Refine.{Refines}

lt_of_pow-lt : (k : ℕ) → 2 ^ k < 2 ^ 63 → k < 63
lt_of_pow-lt k h = elim (dec_lt k 63) [
  | yes p ↦ p
  | no p ↦
      absurd (omega (arith, pow-le-pow_right {n = 2} (omega arith) {i = 63} {j = k} (omega arith)))
]

-- `capacity <<= 1` of a power of two below the largest.
shift_lem : (k : ℕ) → k < 63 → 2 ^ k * 2 % word ≡ 2 ^ suc k
shift_lem k h =
    omega (
      arith,
      pow-suc 2 k,
      pow-le-pow_right {n = 2} (omega arith) {i = suc k} {j = 63} (omega arith),
    )

-- Where the loop stops: at the first power of two, from 2 ^ k on, that is large enough.
record Rounded (k cap : ℕ) (result : Option ℕ) : Type 0 where
  log : ℕ
  result_eq : result ≡ some (2 ^ log)
  from_start : k ≤ log
  in_word : log ≤ 63
  enough : cap ≤ 2 ^ log
  least : k < log → 2 ^ log < cap * 2

round_up-Rounded :
    (fuel k cap : ℕ)
    → k + fuel ≡ 64
    → 0 < fuel
    → cap ≤ 2 ^ 63
    → Rounded k cap (round_up fuel (2 ^ k) cap)
unfolding round_up
round_up-Rounded zero k cap e p h = absurd (omega arith)
round_up-Rounded (suc fuel) k cap e p h = elim (Bool-cases (ltb (2 ^ k) cap)) [
  | inr ge ↦ record {
    log = k;
    result_eq = if-false (ltb (2 ^ k) cap) _ _ ge;
    from_start = omega arith;
    in_word = omega arith;
    enough = ltb-false→le (2 ^ k) cap ge;
    least = λ lt. absurd (omega arith);
  }
  | inl lt ↦
      let low : k < 63 = lt_of_pow-lt k (omega (arith, ltb→lt (2 ^ k) cap lt)) in
      let rest = round_up-Rounded fuel (suc k) cap (omega arith) (omega arith) h in
      record {
        log = rest.log;
        result_eq =
            if-true (ltb (2 ^ k) cap) _ _ lt
            ∙ ap (λ c. round_up fuel c cap) (shift_lem k low)
            ∙ rest.result_eq;
        from_start = omega (arith, rest.from_start);
        in_word = rest.in_word;
        enough = rest.enough;
        least = λ _. elim (dec_lt (suc k) rest.log) [
          | yes q ↦ rest.least q
          | no q ↦
              let here : rest.log ≡ suc k = omega (arith, rest.from_start) in
              omega (arith, ap (λ (j : ℕ). 2 ^ j) here, pow-suc 2 k, ltb→lt (2 ^ k) cap lt)
        ];
      }
]

positive : (k : ℕ) → 1024 ≤ 2 ^ k → 0 < k
positive zero h = absurd (omega arith)
positive (suc k) h = omega arith

module _ {ℓ} {A : Type ℓ} where
  pub fresh-Refines :
      (k c : ℕ)
      → k ≤ 63
      → c ≡ 2 ^ k
      → Refines (fresh {A = A} c) (record { items = []; capacity = c; closed = false })
  unfolding fresh
  fresh-Refines k c h e = record {
    holds = record {
      shape = record {
        log = k;
        log_le = h;
        capacity_eq = e;
        capacity_le = omega (arith, e, top);
        capacity_pos = omega (arith, e, pow_pos k);
        mask_eq = omega (arith, e, top, pow_pos k);
        storage = length-replicate c none;
      };
      head_word = omega arith;
      tail_eq = refl;
      fits = omega arith;
      items = refl;
    };
    capacity_eq = refl;
    closed_eq = refl;
  }
    where
      top : 2 ^ k ≤ 2 ^ 63
      top = pow-le-pow_right {n = 2} (omega arith) h

  built :
      (cap k c : ℕ)
      → k ≤ 63
      → c ≡ 2 ^ k
      → new_with {A = A} 64 cap ≡ some (fresh c)
      → cap ≤ c
      → 1024 ≤ c
      → (c ≢ 1024 → c < cap * 2)
      → (r : Ring A) × (new_with 64 cap ≡ some r)
        × Refines r (record { items = []; capacity = r.capacity; closed = false })
        × (cap ≤ r.capacity)
        × (1024 ≤ r.capacity)
        × (r.capacity ≢ 1024 → r.capacity < cap * 2)
  unfolding fresh
  built cap k c h e made p q l = (fresh c, made, fresh-Refines k c h e, p, q, l)

  -- `NewRingBuffer(cap)`, for a `cap` of 2 ^ 63 at most, ends and builds an open, empty buffer. Its
  -- capacity is at least `cap` and at least 1024, and less than twice `cap` if it is not 1024.
  pub new_with-Refines :
      (cap : ℕ)
      → cap ≤ 2 ^ 63
      → (r : Ring A) × (new_with 64 cap ≡ some r)
        × Refines r (record { items = []; capacity = r.capacity; closed = false })
        × (cap ≤ r.capacity)
        × (1024 ≤ r.capacity)
        × (r.capacity ≢ 1024 → r.capacity < cap * 2)
  unfolding new_with
  new_with-Refines cap h = elim (Bool-cases (ltb (2 ^ g.log) 1024)) [
    | inl small ↦
        built cap 10 1024 (omega arith) refl (made ∙ ap (λ c. some (fresh c)) (if-true _ _ _ small))
          (omega (arith, g.enough, ltb→lt (2 ^ g.log) 1024 small)) (omega arith)
          (λ ne. absurd (ne refl))
    | inr large ↦
        built cap g.log (2 ^ g.log) g.in_word refl
          (made ∙ ap (λ c. some (fresh c)) (if-false _ _ _ large)) g.enough
          (ltb-false→le (2 ^ g.log) 1024 large)
          (λ _. g.least (positive g.log (ltb-false→le (2 ^ g.log) 1024 large)))
  ]
    where
      g : Rounded 0 cap (round_up 64 1 cap)
      g = round_up-Rounded 64 0 cap refl (omega arith) h

      made :
          new_with {A = A} 64 cap ≡ some (fresh (if ltb (2 ^ g.log) 1024 then 1024 else 2 ^ g.log))
      made = ap (Option.map _) g.result_eq

-- A counter that the loop doubles is a power of two, or has run out of the word.
abbrev Doubled : ℕ → Type 0
Doubled c = (c ≡ 0) ⊎ ((k : ℕ) × (k ≤ 63) × (c ≡ 2 ^ k))

Doubled-le : (c : ℕ) → Doubled c → c ≤ 2 ^ 63
Doubled-le c (inl e) = omega arith
Doubled-le c (inr (k, h, e)) = omega (arith, pow-le-pow_right {n = 2} (omega arith) h)

Doubled-step : (c : ℕ) → Doubled c → Doubled (c * 2 % word)
Doubled-step c (inl e) = inl (omega arith)
Doubled-step c (inr (k, h, e)) = elim (dec_lt k 63) [
  | yes p ↦ inr (suc k, p, ap (λ x. x * 2 % word) e ∙ shift_lem k p)
  | no p ↦ inl (omega (arith, e, ap (λ (j : ℕ). 2 ^ j) (top p)))
]
  where
    top : ¬ (k < 63) → k ≡ 63
    top p = omega arith

round_up-none : (fuel c cap : ℕ) → Doubled c → 2 ^ 63 < cap → round_up fuel c cap ≡ none
unfolding round_up
round_up-none zero c cap d h = refl
round_up-none (suc fuel) c cap d h =
    if-true (ltb c cap) _ _ (lt→ltb c cap (omega (arith, Doubled-le c d)))
    ∙ round_up-none fuel (c * 2 % word) cap (Doubled-step c d) h

-- For a `cap` above 2 ^ 63 the loop of `NewRingBuffer` shifts its counter out of the word and runs on
-- for ever: no number of rounds is enough.
new_with-none : (fuel cap : ℕ) → 2 ^ 63 < cap → new_with {A = ℕ} fuel cap ≡ none
unfolding new_with
new_with-none fuel cap h =
    ap (Option.map _) (round_up-none fuel 1 cap (inr (0, omega arith, refl)) h)
