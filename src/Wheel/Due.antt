-- ===== src/Wheel/Due.antt =====
-- internal/queue/timingwheel.go: after how many ticks each entry of the wheel expires.
use mathlib.Core.List.{Perm, perm_middle}
use mathlib.Core.List.Perm
use native.Mathlib.Nat.{
  mod-add-mod, add-mod-mod, add-mod_right, mod-lt, mod-eq_of_lt, div-add-mod, mod_self, div_self,
  div-eq_of_lt, mul-add-div, add-zero, zero-div, zero-mod,
}
use vortexmq.Prelude.{
  ℕ, ◌+◌, ◌-◌, ◌*◌, ◌/◌, ◌%◌, ◌<◌, ◌≡◌, ◌≢◌, refl, ap, ap₂, ◌∙◌, sym, subst, arith, inl, inr, false,
  List, [], ◌∷◌, ◌++◌, leb, ◌==◌, if◌then◌else◌, if-true, if-false, Bool-cases, get_or, set, length,
  get_or-set_self, dec_lt, ℕ_discrete, get_or-set_ne, length-set, append-nil, append_assoc,
}
use vortexmq.Wheel.{Entry, Wheel, schedule, target_slot, sweep, advance}

pub record IsValid {ℓ} {A : Type ℓ} (w : Wheel A) : Type ℓ where
  pub has_slots : 0 < w.slots
  pub has_interval : 0 < w.interval
  pub on_wheel : w.current_slot < w.slots
  pub storage : length w.buckets ≡ w.slots

module _ {ℓ} {A : Type ℓ} where
  -- The messages of a bucket that have `k` rounds to go, in order.
  pub with_rounds : ℕ → List (Entry A) → List A
  with_rounds k [] = []
  with_rounds k (e ∷ es) = if e.rounds == k then e.msg ∷ with_rounds k es else with_rounds k es

  -- What the `n`-th tick from now, counted from 0, will let go.
  pub due : Wheel A → ℕ → List A
  due w n = with_rounds (n / w.slots) (get_or w.buckets ((w.current_slot + n) % w.slots) [])

  -- `xs` reversed, in front of `ys`.
  pub rev_onto : List A → List A → List A
  rev_onto [] ys = ys
  rev_onto (x ∷ xs) ys = rev_onto xs (x ∷ ys)

  pub perm_of_eq : {xs ys : List A} → xs ≡ ys → Perm xs ys
  perm_of_eq {xs} e = subst (Perm xs) e (Perm.refl xs)

  rev_onto-perm : (xs ys : List A) → Perm (rev_onto xs ys) (xs ++ ys)
  unfolding rev_onto
  rev_onto-perm [] ys = Perm.refl ys
  rev_onto-perm (x ∷ xs) ys = Perm.trans (rev_onto-perm xs (x ∷ ys)) (perm_middle xs ys)

  sweep-expired :
      (b : List (Entry A)) (ex : List A) (rem : List (Entry A))
      → (sweep b ex rem).0 ≡ ex ++ with_rounds 0 b
  unfolding sweep with_rounds
  sweep-expired [] ex rem = sym (append-nil ex)
  sweep-expired (e ∷ es) ex rem = ground (
    arith,
    sweep-expired es (if leb e.rounds 0 then ex ++ (e.msg ∷ []) else ex)
        (if leb e.rounds 0 then rem else record e { rounds = e.rounds - 1 } ∷ rem),
    append_assoc ex (e.msg ∷ []) (with_rounds 0 es),
  )

  sweep-remaining :
      (k : ℕ) (b : List (Entry A)) (ex : List A) (rem : List (Entry A))
      → with_rounds k (sweep b ex rem).1 ≡ rev_onto (with_rounds (k + 1) b) (with_rounds k rem)
  unfolding sweep with_rounds rev_onto
  sweep-remaining k [] ex rem = refl
  sweep-remaining k (e ∷ es) ex rem = ground (
    arith,
    sweep-remaining k es (if leb e.rounds 0 then ex ++ (e.msg ∷ []) else ex)
        (if leb e.rounds 0 then rem else record e { rounds = e.rounds - 1 } ∷ rem),
  )

mod_cancel : (s c n m : ℕ) → c < s → (c + n) % s ≡ (c + m) % s → n % s ≡ m % s
mod_cancel s c n m h e = back n ∙ ap (λ k. (k + (s - c)) % s) e ∙ sym (back m)
  where
    turn : (k : ℕ) → c + k + (s - c) ≡ k + s
    turn k = omega arith

    back : (k : ℕ) → k % s ≡ ((c + k) % s + (s - c)) % s
    back k = sym (mod-add-mod (c + k) s (s - c) ∙ ap (λ t. t % s) (turn k) ∙ add-mod_right k s)

eq_of_div-mod : (s n m : ℕ) → n / s ≡ m / s → n % s ≡ m % s → n ≡ m
eq_of_div-mod s n m d r = sym (div-add-mod n s) ∙ ap₂ (λ a b. s * a + b) d r ∙ div-add-mod m s

div_step : (s n : ℕ) → 0 < s → (n + 1) / s ≡ n / s + (n % s + 1) / s
div_step s n h = ap (λ k. k / s) split ∙ mul-add-div h (n / s) (n % s + 1)
  where
    split : n + 1 ≡ s * (n / s) + (n % s + 1)
    split = omega (arith, div-add-mod n s)

mod_step : (s n : ℕ) → (n + 1) % s ≡ (n % s + 1) % s
mod_step s n = sym (mod-add-mod n s 1)

-- One more tick: the remainder starts again at 0 exactly when a round is complete.
next_round : (s n : ℕ) → 0 < s → (n + 1) % s ≡ 0 → (n + 1) / s ≡ n / s + 1
next_round s n h e = elim (dec_lt (n % s + 1) s) [
  | yes p ↦ absurd (omega (arith, mod_step s n, mod-eq_of_lt p))
  | no p ↦
      let top : n % s + 1 ≡ s = omega (arith, mod-lt n h) in
      div_step s n h ∙ ap (λ k. n / s + k) (ap (λ k. k / s) top ∙ div_self h)
]

same_round : (s n : ℕ) → 0 < s → (n + 1) % s ≢ 0 → (n + 1) / s ≡ n / s
same_round s n h e = elim (dec_lt (n % s + 1) s) [
  | yes p ↦ div_step s n h ∙ ap (λ k. n / s + k) (div-eq_of_lt p) ∙ add-zero (n / s)
  | no p ↦
      let top : n % s + 1 ≡ s = omega (arith, mod-lt n h) in
      absurd (e (mod_step s n ∙ ap (λ k. k % s) top ∙ mod_self s))
]

module _ {ℓ} {A : Type ℓ} (w : Wheel A) (v : IsValid w) where
  slot_of : ℕ → ℕ
  slot_of n = (w.current_slot + n) % w.slots

  module _ (msg : A) (ticks n : ℕ) where
    target_lem : target_slot w ticks ≡ slot_of ticks
    unfolding target_slot slot_of
    target_lem = add-mod-mod w.current_slot ticks w.slots

    target_lt : target_slot w ticks < length w.buckets
    unfolding target_slot
    target_lt = omega (arith, v.storage, mod-lt (w.current_slot + ticks % w.slots) v.has_slots)

    same_tick : target_slot w ticks ≡ slot_of n → n / w.slots ≡ ticks / w.slots → n ≡ ticks
    unfolding slot_of
    same_tick e d =
        eq_of_div-mod w.slots n ticks d
          (mod_cancel w.slots w.current_slot n ticks v.on_wheel (sym e ∙ target_lem))

    tick_test : target_slot w ticks ≡ slot_of n → (ticks / w.slots == n / w.slots) ≡ (n == ticks)
    tick_test e = elim (ℕ_discrete n ticks) [
      | yes p ↦ ground (arith, ap (λ k. k / w.slots) p)
      | no p ↦ elim (ℕ_discrete (n / w.slots) (ticks / w.slots)) [
        | yes d ↦ absurd (p (same_tick e d))
        | no d ↦ ground arith
      ]
    ]

    other_tick : ¬ (target_slot w ticks ≡ slot_of n) → (n == ticks) ≡ false
    other_tick e = elim (ℕ_discrete n ticks) [
      | yes p ↦ absurd (e (target_lem ∙ ap slot_of (sym p)))
      | no p ↦ ground arith
    ]

    -- Scheduling for a tick changes what is due at that tick, and there puts the message first.
    pub due-schedule :
        due (schedule msg ticks w) n ≡ (if n == ticks then msg ∷ due w n else due w n)
    unfolding due schedule with_rounds slot_of
    due-schedule = elim (ℕ_discrete target (slot_of n)) [
      | yes e ↦
          ap (with_rounds (n / w.slots)) (
            ap (λ i. get_or (set w.buckets target bucket) i []) (sym e)
            ∙ get_or-set_self w.buckets target bucket [] target_lt
            ∙ ap (λ i. entry ∷ get_or w.buckets i []) e)
          ∙ ap (λ b. if b then msg ∷ due w n else due w n) (tick_test e)
      | no e ↦
          ap (with_rounds (n / w.slots)) (get_or-set_ne w.buckets target (slot_of n) bucket [] e)
          ∙ sym (if-false (n == ticks) _ _ (other_tick e))
    ]
      where
        target : ℕ
        target = target_slot w ticks

        entry : Entry A
        entry = record { msg = msg; rounds = ticks / w.slots }

        bucket : List (Entry A)
        bucket = entry ∷ get_or w.buckets target []

  module _ (n : ℕ) where
    next_slot : ((w.current_slot + 1) % w.slots + n) % w.slots ≡ slot_of (n + 1)
    unfolding slot_of
    next_slot = mod-add-mod (w.current_slot + 1) w.slots n ∙ ap (λ k. k % w.slots) (omega arith)

    back_here : (n + 1) % w.slots ≡ 0 → w.current_slot ≡ slot_of (n + 1)
    unfolding slot_of
    back_here z = sym (
        sym (add-mod-mod w.current_slot (n + 1) w.slots)
        ∙ ap (λ k. (w.current_slot + k) % w.slots) z
        ∙ ap (λ k. k % w.slots) (add-zero w.current_slot)
        ∙ mod-eq_of_lt v.on_wheel)

    elsewhere : (n + 1) % w.slots ≢ 0 → w.current_slot ≢ slot_of (n + 1)
    unfolding slot_of
    elsewhere z e = z (
        mod_cancel w.slots w.current_slot (n + 1) 0 v.on_wheel (sym e ∙ sym here)
        ∙ zero-mod w.slots)
      where
        here : (w.current_slot + 0) % w.slots ≡ w.current_slot
        here = ap (λ k. k % w.slots) (add-zero w.current_slot) ∙ mod-eq_of_lt v.on_wheel

    -- A tick brings everything one tick nearer; a bucket that was swept is in reverse order.
    pub due-advance :
        due (advance w).0 n
        ≡ (if (n + 1) % w.slots == 0 then rev_onto (due w (n + 1)) [] else due w (n + 1))
    unfolding due advance slot_of with_rounds
    due-advance =
        ap (λ i. with_rounds (n / w.slots) (get_or (set w.buckets w.current_slot rem) i []))
          next_slot
        ∙ elim (ℕ_discrete ((n + 1) % w.slots) 0) [
          | yes z ↦
              ap (λ i. with_rounds (n / w.slots) (get_or (set w.buckets w.current_slot rem) i []))
                (sym (back_here z))
              ∙ ap (with_rounds (n / w.slots))
                  (get_or-set_self w.buckets w.current_slot rem [] inside)
              ∙ sweep-remaining (n / w.slots) (get_or w.buckets w.current_slot []) [] []
              ∙ ap₂ (λ k i. rev_onto (with_rounds k (get_or w.buckets i [])) [])
                  (sym (next_round w.slots n v.has_slots z)) (back_here z)
              ∙ sym (if-true ((n + 1) % w.slots == 0) _ _ (ground arith))
          | no z ↦
              ap (with_rounds (n / w.slots))
                (get_or-set_ne w.buckets w.current_slot (slot_of (n + 1)) rem [] (elsewhere z))
              ∙ ap (λ k. with_rounds k (get_or w.buckets (slot_of (n + 1)) []))
                  (sym (same_round w.slots n v.has_slots z))
              ∙ sym (if-false ((n + 1) % w.slots == 0) _ _ (ground arith))
        ]
      where
        rem : List (Entry A)
        rem = (sweep (get_or w.buckets w.current_slot []) [] []).1

        inside : w.current_slot < length w.buckets
        inside = omega (arith, v.storage, v.on_wheel)

  -- A tick lets go exactly what was due, in the order of its bucket.
  pub advance-expired : (advance w).1 ≡ due w 0
  unfolding advance due
  advance-expired =
      sweep-expired (get_or w.buckets w.current_slot []) [] []
      ∙ ap₂ (λ k i. with_rounds k (get_or w.buckets i [])) (sym (zero-div w.slots))
          (sym (ap (λ i. i % w.slots) (add-zero w.current_slot) ∙ mod-eq_of_lt v.on_wheel))

  pub advance-IsValid : IsValid (advance w).0
  unfolding advance
  advance-IsValid = record {
    has_slots = v.has_slots;
    has_interval = v.has_interval;
    on_wheel = mod-lt (w.current_slot + 1) v.has_slots;
    storage = length-set w.buckets w.current_slot _ ∙ v.storage;
  }

  pub schedule-IsValid : (msg : A) (ticks : ℕ) → IsValid (schedule msg ticks w)
  unfolding schedule
  schedule-IsValid msg ticks = record {
    has_slots = v.has_slots;
    has_interval = v.has_interval;
    on_wheel = v.on_wheel;
    storage = length-set w.buckets (target_slot w ticks) _ ∙ v.storage;
  }

  pub closed-advance : (advance w).0.closed ≡ w.closed
  unfolding advance
  closed-advance = refl

  pub nearer : (n : ℕ) → Perm (due (advance w).0 n) (due w (n + 1))
  nearer n = elim (Bool-cases ((n + 1) % w.slots == 0)) [
    | inl z ↦
        Perm.trans (perm_of_eq (due-advance n ∙ if-true ((n + 1) % w.slots == 0) _ _ z))
          (Perm.trans (rev_onto-perm (due w (n + 1)) []) (perm_of_eq (append-nil (due w (n + 1)))))
    | inr z ↦ perm_of_eq (due-advance n ∙ if-false ((n + 1) % w.slots == 0) _ _ z)
  ]
