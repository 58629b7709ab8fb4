-- ===== src/Prelude/Maps.antt =====
-- Byte strings (Go's string and []byte), and a Go map with such keys as an association list: the
-- list's order is the order in which `range` goes through the map, which the source leaves open.
use Prim.Native.Nat.{ℕ, ◌+◌}
use mathlib.Core.Path.{◌≡◌, refl, ap₂, ◌∙◌}
use mathlib.Core.Logic.{ite, if_pos, if_neg}
use mathlib.Core.Option.{Option, none, some}
use mathlib.Core.List.{List, [], ◌∷◌, map}
use native.Mathlib.Decide.{ℕ_discrete}
use native.Mathlib.Omega.{arith}
use vortexmq.Prelude.Lists.{length}

abbrev pub Bytes : Type 0
Bytes = List ℕ

cons_head : {x y : ℕ} {xs ys : Bytes} → ◌≡◌ {A = Bytes} (x ∷ xs) (y ∷ ys) → x ≡ y
cons_head e = cc

cons_tail : {x y : ℕ} {xs ys : Bytes} → ◌≡◌ {A = Bytes} (x ∷ xs) (y ∷ ys) → xs ≡ ys
cons_tail e = cc

cons-ne-nil : {x : ℕ} {xs : Bytes} → ¬ (◌≡◌ {A = Bytes} (x ∷ xs) [])
cons-ne-nil e = cc

nil-ne-cons : {x : ℕ} {xs : Bytes} → ¬ (◌≡◌ {A = Bytes} [] (x ∷ xs))
nil-ne-cons e = cc

unfoldable pub bytes_dec : Discrete Bytes
unfolding ℕ_discrete cons_head cons_tail cons-ne-nil nil-ne-cons
bytes_dec [] [] = yes refl
bytes_dec [] (y ∷ ys) = no nil-ne-cons
bytes_dec (x ∷ xs) [] = no cons-ne-nil
bytes_dec (x ∷ xs) (y ∷ ys) = elim (ℕ_discrete x y) [
  | yes p ↦ elim (bytes_dec xs ys) [ yes q ↦ yes (ap₂ ◌∷◌ p q) | no n ↦ no (λ e. n (cons_tail e)) ]
  | no n ↦ no (λ e. n (cons_head e))
]

abbrev pub Map {ℓ} : Type ℓ → Type ℓ
Map V = List (Bytes × V)

module _ {ℓ} {V : Type ℓ} where
  abbrev pub keys : Map V → List Bytes
  keys = map (λ e. e.0)

  unfoldable pub lookup : Bytes → Map V → Option V
  unfolding bytes_dec
  lookup k [] = none
  lookup k ((j, v) ∷ m) = ite (bytes_dec j k) (some v) (lookup k m)

  -- `m[k] = v`: a new key goes to the end.
  unfoldable pub insert : Bytes → V → Map V → Map V
  unfolding bytes_dec
  insert k v [] = (k, v) ∷ []
  insert k v ((j, w) ∷ m) = ite (bytes_dec j k) ((k, v) ∷ m) ((j, w) ∷ insert k v m)

  -- `delete(m, k)`
  unfoldable pub delete : Bytes → Map V → Map V
  unfolding bytes_dec
  delete k [] = []
  delete k ((j, w) ∷ m) = ite (bytes_dec j k) (delete k m) ((j, w) ∷ delete k m)

  -- A Go map has each key once.
  abbrev pub IsMap : Map V → Type ℓ
  IsMap [] = Unit
  IsMap ((k, v) ∷ m) = (lookup k m ≡ none) × IsMap m

  pub lookup-insert :
      (k j : Bytes) (v : V) (m : Map V)
      → lookup j (insert k v m) ≡ ite (bytes_dec k j) (some v) (lookup j m)
  unfolding lookup insert
  lookup-insert k j v [] = refl
  lookup-insert k j v ((i, w) ∷ m) = ground (arith, lookup-insert k j v m)

  pub lookup-delete :
      (k j : Bytes) (m : Map V) → lookup j (delete k m) ≡ ite (bytes_dec k j) none (lookup j m)
  unfolding lookup delete
  lookup-delete k j [] = ground arith
  lookup-delete k j ((i, w) ∷ m) = ground (arith, lookup-delete k j m)

  pub delete_absent : (k : Bytes) (m : Map V) → lookup k m ≡ none → delete k m ≡ m
  unfolding lookup delete
  delete_absent k [] h = refl
  delete_absent k ((j, w) ∷ m) h = ground (arith, delete_absent k m)

  pub length-delete :
      (k : Bytes) (v : V) (m : Map V)
      → IsMap m
      → lookup k m ≡ some v
      → length (delete k m) + 1 ≡ length m
  unfolding lookup delete
  length-delete k v [] u h = cc
  length-delete k v ((j, w) ∷ m) u h = ground (arith, length-delete k v m u.1, delete_absent k m)

  pub length-insert_new :
      (k : Bytes) (v : V) (m : Map V) → lookup k m ≡ none → length (insert k v m) ≡ length m + 1
  unfolding lookup insert
  length-insert_new k v [] h = omega arith
  length-insert_new k v ((j, w) ∷ m) h = ground (arith, length-insert_new k v m)

  pub length-insert_old :
      (k : Bytes) (v w : V) (m : Map V) → lookup k m ≡ some w → length (insert k v m) ≡ length m
  unfolding lookup insert
  length-insert_old k v w [] h = cc
  length-insert_old k v w ((j, u) ∷ m) h = ground (arith, length-insert_old k v w m)

  pub delete-IsMap : (k : Bytes) (m : Map V) → IsMap m → IsMap (delete k m)
  unfolding delete
  delete-IsMap k [] u = tt
  delete-IsMap k ((j, w) ∷ m) u = elim (bytes_dec j k) [
    | yes p ↦ rw (if_pos _ p) (delete-IsMap k m u.1)
    | no p ↦ rw (if_neg _ p) (rw (lookup-delete k j m) (ground arith), delete-IsMap k m u.1)
  ]

  pub insert-IsMap : (k : Bytes) (v : V) (m : Map V) → IsMap m → IsMap (insert k v m)
  unfolding insert lookup
  insert-IsMap k v [] u = (refl, tt)
  insert-IsMap k v ((j, w) ∷ m) u = elim (bytes_dec j k) [
    | yes p ↦ rw (if_pos _ p) (rw (← p) u.0, u.1)
    | no p ↦ rw (if_neg _ p) (rw (lookup-insert k j v m) (ground arith), insert-IsMap k v m u.1)
  ]

module _ {ℓ} {V : Type ℓ} where
  pub lookup-insert_self : (k : Bytes) (v : V) (m : Map V) → lookup k (insert k v m) ≡ some v
  lookup-insert_self k v m = lookup-insert k k v m ∙ if_pos (bytes_dec k k) refl _ _

  pub lookup-insert_ne :
      (k j : Bytes) (v : V) (m : Map V) → ¬ (k ≡ j) → lookup j (insert k v m) ≡ lookup j m
  lookup-insert_ne k j v m h = lookup-insert k j v m ∙ if_neg (bytes_dec k j) h _ _
