-- ===== src/Channels/Sends.antt =====
-- internal/queue/broker.go: sends on channels of the heap that are open.
use mathlib.Core.Option
use vortexmq.Prelude.{
  ℕ, zero, suc, ◌+◌, ◌≤◌, ◌<◌, false, Option, some, List, [], ◌∷◌, ◌++◌, if-true, if-false,
  Bool-cases, ltb, get_elem?, set, length, Bytes, inl, inr, ◌⊎◌, ◌≡◌, ◌≢◌, refl, ap, ◌∙◌, arith,
}
use vortexmq.Channels.{Chan, chan_capacity, offer, offer_at, offer_all}

abbrev pub In : ℕ → List ℕ → Type 0
In i [] = ⊥
In i (j ∷ js) = (j ≡ i) ⊎ In i js

-- The channel at a place of the heap has not been closed.
abbrev pub IsOpen : List Chan → ℕ → Type 0
IsOpen [] i = ⊥
IsOpen (c ∷ cs) zero = c.closed ≡ false
IsOpen (c ∷ cs) (suc i) = IsOpen cs i

pub IsOpen-get :
    (h : List Chan) (i : ℕ)
    → IsOpen h i
    → (c : Chan) × (get_elem? h i ≡ some c) × (c.closed ≡ false)
IsOpen-get [] i o = elim o [ ]
IsOpen-get (c ∷ h) zero o = (c, refl, o)
IsOpen-get (c ∷ h) (suc i) o = IsOpen-get h i o

IsOpen-set :
    (h : List Chan) (i j : ℕ) (c : Chan) → c.closed ≡ false → IsOpen h j → IsOpen (set h i c) j
IsOpen-set [] i j c e o = o
IsOpen-set (x ∷ h) zero zero c e o = e
IsOpen-set (x ∷ h) zero (suc j) c e o = o
IsOpen-set (x ∷ h) (suc i) zero c e o = o
IsOpen-set (x ∷ h) (suc i) (suc j) c e o = IsOpen-set h i j c e o

pub IsOpen-set_ne : (h : List Chan) (i j : ℕ) (c : Chan) → i ≢ j → IsOpen h j → IsOpen (set h i c) j
IsOpen-set_ne [] i j c e o = o
IsOpen-set_ne (x ∷ h) zero zero c e o = absurd (e refl)
IsOpen-set_ne (x ∷ h) zero (suc j) c e o = o
IsOpen-set_ne (x ∷ h) (suc i) zero c e o = o
IsOpen-set_ne (x ∷ h) (suc i) (suc j) c e o = IsOpen-set_ne h i j c (λ p. e (ap suc p)) o

pub IsOpen-append : (h x : List Chan) (j : ℕ) → IsOpen h j → IsOpen (h ++ x) j
IsOpen-append [] x j o = elim o [ ]
IsOpen-append (c ∷ h) x zero o = o
IsOpen-append (c ∷ h) x (suc j) o = IsOpen-append h x j o

pub IsOpen-last : (h : List Chan) (c : Chan) → c.closed ≡ false → IsOpen (h ++ (c ∷ [])) (length h)
IsOpen-last [] c e = e
IsOpen-last (x ∷ h) c e = IsOpen-last h c e

pub IsOpen-lt : (h : List Chan) (j : ℕ) → IsOpen h j → j < length h
IsOpen-lt [] j o = elim o [ ]
IsOpen-lt (c ∷ h) zero o = omega arith
IsOpen-lt (c ∷ h) (suc j) o = omega (arith, IsOpen-lt h j o)

-- A send that does not panic, to some of `n` channels at most, and that closes none.
pub record Sends (n : ℕ) (h : List Chan) (r : Option (List Chan × ℕ)) : Type 0 where
  pub heap : List Chan
  pub sent : ℕ
  pub runs : r ≡ some (heap, sent)
  pub few : sent ≤ n
  pub keeps : (j : ℕ) → IsOpen h j → IsOpen heap j

offer-open :
    (payload : Option Bytes) (c : Chan)
    → c.closed ≡ false
    → (c' : Chan) × (n : ℕ) × (offer payload c ≡ some (c', n)) × (c'.closed ≡ false) × (n ≤ 1)
unfolding offer
offer-open payload c e = elim (Bool-cases (ltb (length c.buffer) chan_capacity)) [
  | inl p ↦ (_, 1, if-false _ _ _ e ∙ if-true _ _ _ p, e, omega arith)
  | inr p ↦ (c, 0, if-false _ _ _ e ∙ if-false _ _ _ p, e, omega arith)
]

offer_at-Sends :
    (payload : Option Bytes) (i : ℕ) (h : List Chan) → IsOpen h i → Sends 1 h (offer_at payload i h)
unfolding offer_at
offer_at-Sends payload i h o =
    let (c, found, e) = IsOpen-get h i o in
    let (c', n, sent, e', few) = offer-open payload c e in
    record {
      heap = set h i c';
      sent = n;
      runs = rw (found, offer_at) (ap (Option.map (λ (r : Chan × ℕ). (set h i r.0, r.1))) sent);
      few = few;
      keeps = λ j. IsOpen-set h i j c' e';
    }

pub offer_all-Sends :
    (payload : Option Bytes) (is : List ℕ) (h : List Chan)
    → ((i : ℕ) → In i is → IsOpen h i)
    → Sends (length is) h (offer_all payload is h)
unfolding offer_all
offer_all-Sends payload [] h o = record {
  heap = h;
  sent = 0;
  runs = refl;
  few = omega arith;
  keeps = λ j o. o;
}
offer_all-Sends payload (i ∷ is) h o =
    let one = offer_at-Sends payload i h (o i (inl refl)) in
    let rest = offer_all-Sends payload is one.heap (λ j m. one.keeps j (o j (inr m))) in
    record {
      heap = rest.heap;
      sent = one.sent + rest.sent;
      runs =
          rw (one.runs, offer_all)
            (ap (Option.map (λ (r : List Chan × ℕ). (r.0, one.sent + r.1))) rest.runs);
      few = omega (arith, one.few, rest.few);
      keeps = λ j p. rest.keeps j (one.keeps j p);
    }
