-- ===== src/Channels/Members.antt =====
-- internal/queue/broker.go: who is in the sets of subscribers.
use vortexmq.Prelude.{
  ℕ, false, none, some, List, [], ◌∷◌, ◌++◌, if-true, if-false, Bool-cases, ◌==◌, Bytes, Map,
  bytes_dec, insert, ite, lookup, lookup-insert, lookup-delete, inl, inr, ◌⊎◌, ◌≡◌, ◌≢◌, refl, sym,
  ap, ◌∙◌, subst, arith,
}
use vortexmq.Channels.{places, without, put_subs}
use vortexmq.Channels.Sends.{In}

pub In-append : (i k : ℕ) (xs : List ℕ) → In i (xs ++ (k ∷ [])) → In i xs ⊎ (k ≡ i)
In-append i k [] (inl e) = inr e
In-append i k [] (inr m) = elim m [ ]
In-append i k (x ∷ xs) (inl e) = inl (inl e)
In-append i k (x ∷ xs) (inr m) = elim (In-append i k xs m) [ inl p ↦ inl (inr p) | inr p ↦ inr p ]

differ : (j x : ℕ) → (j == x) ≡ false → j ≢ x
differ j x e = ground arith

In-kept :
    (i j x : ℕ) (xs ys : List ℕ)
    → (j == x) ≡ false
    → (In i ys → In i xs × (j ≢ i))
    → (x ≡ i) ⊎ In i ys
    → ((x ≡ i) ⊎ In i xs) × (j ≢ i)
In-kept i j x xs ys e rest (inl p) = (inl p, λ q. differ j x e (q ∙ sym p))
In-kept i j x xs ys e rest (inr m) = let (p, q) = rest m in (inr p, q)

pub In-without : (i j : ℕ) (xs : List ℕ) → In i (without j xs) → In i xs × (j ≢ i)
unfolding without
In-without i j [] m = elim m [ ]
In-without i j (x ∷ xs) m = elim (Bool-cases (j == x)) [
  | inl e ↦ let (p, q) = In-without i j xs (subst (In i) (if-true _ _ _ e) m) in (inr p, q)
  | inr e ↦
      In-kept i j x xs (without j xs) e (In-without i j xs) (subst (In i) (if-false _ _ _ e) m)
]

pub places-insert :
    (c name : Bytes) (v : List ℕ) (m : Map (List ℕ))
    → places (lookup name (insert c v m)) ≡ ite (bytes_dec c name) v (places (lookup name m))
unfolding places
places-insert c name v m = ap places (lookup-insert c name v m) ∙ either (bytes_dec c name)
  where
    either :
        (x : Dec (c ≡ name))
        → places (ite x (some v) (lookup name m)) ≡ ite x v (places (lookup name m))
    either (yes p) = refl
    either (no p) = refl

pub places-put_subs :
    (c name : Bytes) (v : List ℕ) (m : Map (List ℕ))
    → places (lookup name (put_subs c v m)) ≡ ite (bytes_dec c name) v (places (lookup name m))
unfolding places put_subs
places-put_subs c name (i ∷ is) m = places-insert c name (i ∷ is) m
places-put_subs c name [] m = ap places (lookup-delete c name m) ∙ either (bytes_dec c name)
  where
    either :
        (x : Dec (c ≡ name))
        → places (ite x none (lookup name m)) ≡ ite x [] (places (lookup name m))
    either (yes p) = refl
    either (no p) = refl

-- A subscriber after the set of `c` has become `v`.
pub In-ite :
    (c name : Bytes) (i : ℕ) (v w : List ℕ) (x : Dec (c ≡ name))
    → In i (ite x v w)
    → ((c ≡ name) × In i v) ⊎ ((c ≢ name) × In i w)
In-ite c name i v w (yes p) m = inl (p, m)
In-ite c name i v w (no p) m = inr (p, m)
