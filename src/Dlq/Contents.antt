-- ===== src/Dlq/Contents.antt =====
-- internal/queue/dlq.go: what can be read back from the dead letter queue.
use mathlib.Core.Path.{subst₂}
use vortexmq.Prelude.{
  ℕ, zero, suc, ◌+◌, ◌-◌, ◌≤◌, ◌<◌, ◌≡◌, refl, ap, ap₂, ◌∙◌, sym, arith, inl, inr, ite, if_pos,
  Option, none, some, List, [], ◌∷◌, map, ltb, leb, leb→le, leb-false→lt, ltb→lt, ltb-false→le,
  Bool-cases, Option-cases, length, take, drop, take-past, length-drop, get_elem?, Bytes, bytes_dec,
  lookup, lookup-insert, lookup-delete, if◌then◌else◌, if-true, if-false,
}
use vortexmq.Int.{ℤ}
use vortexmq.Message.{Message, clone}
use vortexmq.Dlq.{
  Entry, Dlq, evict, evict_first, record_of, add, remove, list, list_loop, get, r_unlock,
}
use vortexmq.Dlq.Order.{IsListed, stored, count}

-- The ID that `Add` gives up: the oldest, when the queue is at capacity.
abbrev oldest : List Bytes → Option Bytes
oldest [] = none
oldest (id ∷ rest) = some id

pub victim : Dlq → Option Bytes
victim q = if leb q.max_size (length q.entries) then oldest q.order else none

abbrev pub without : Option Bytes → Bytes → Option Entry → Option Entry
without none j e = e
without (some id) j e = ite (bytes_dec id j) none e

lookup-evict_first :
    (q : Dlq) (order : List Bytes) (j : Bytes)
    → lookup j (evict_first q order).entries ≡ without (oldest order) j (lookup j q.entries)
unfolding evict_first
lookup-evict_first q [] j = refl
lookup-evict_first q (id ∷ rest) j = lookup-delete id j q.entries

lookup-evict :
    (q : Dlq) (j : Bytes) → lookup j (evict q).entries ≡ without (victim q) j (lookup j q.entries)
unfolding evict victim
lookup-evict q j = elim (Bool-cases (leb q.max_size (length q.entries))) [
  | inl e ↦ rw (e, evict, victim) (lookup-evict_first q q.order j)
  | inr e ↦ rw (e, evict, victim) refl
]

-- After `Add` the message's ID reads as its new record, the evicted ID as absent, and every other
-- ID as before.
pub lookup-add :
    (q : Dlq) (msg : Message) (cause : Bytes) (now : ℤ) (j : Bytes)
    → lookup j (add msg cause now q).entries
      ≡ ite
          (bytes_dec msg.id j)
          (some (record_of msg cause now))
          (without (victim q) j (lookup j q.entries))
unfolding add
lookup-add q msg cause now j =
    lookup-insert msg.id j (record_of msg cause now) (evict q).entries
    ∙ ap (ite (bytes_dec msg.id j) (some (record_of msg cause now))) (lookup-evict q j)

-- A message that was just added is given back by `Remove`, as its clone, and is then gone.
pub remove-add :
    (q : Dlq) (msg : Message) (cause : Bytes) (now : ℤ)
    → ((remove msg.id (add msg cause now q)).1 ≡ some (clone msg))
      × (lookup msg.id (remove msg.id (add msg cause now q)).0.entries ≡ none)
unfolding remove record_of
remove-add q msg cause now = (
  rw (here, remove),
  rw (here, remove)
      (lookup-delete msg.id msg.id (add msg cause now q).entries
        ∙ if_pos (bytes_dec msg.id msg.id) refl _ _),
)
  where
    here : lookup msg.id (add msg cause now q).entries ≡ some (record_of msg cause now)
    here = lookup-add q msg cause now msg.id ∙ if_pos (bytes_dec msg.id msg.id) refl _ _

-- `Get` stops the program when fewer than two readers hold the lock, so always when it is called by
-- itself: it unlocks what it has not locked.
get-none : (id : Bytes) (q : Dlq) (readers : ℕ) → readers < 2 → get id q readers ≡ none
unfolding get r_unlock
get-none id q zero h = refl
get-none id q (suc zero) h = refl
get-none id q (suc (suc n)) h = absurd (omega arith)

at_index :
    (xs : List Bytes) (i : ℕ)
    → i < length xs
    → (id : Bytes) × (get_elem? xs i ≡ some id) × (drop i xs ≡ id ∷ drop (suc i) xs)
at_index [] i h = absurd (omega arith)
at_index (x ∷ xs) zero h = (x, refl, refl)
at_index (x ∷ xs) (suc i) h = at_index xs i (omega arith)

count_pos : (xs : List Bytes) (i : ℕ) (id : Bytes) → get_elem? xs i ≡ some id → 0 < count id xs
unfolding count
count_pos [] i id e = cc
count_pos (x ∷ xs) zero id e = ground arith
count_pos (x ∷ xs) (suc i) id e = ground (arith, count_pos xs i id e)

drop_none : (n : ℕ) (xs : List Bytes) → length xs ≤ n → drop n xs ≡ []
drop_none zero [] h = refl
drop_none zero (x ∷ xs) h = absurd (omega arith)
drop_none (suc n) [] h = refl
drop_none (suc n) (x ∷ xs) h = drop_none n xs (omega arith)

take_none : (n : ℕ) → take {A = Bytes} n [] ≡ []
take_none zero = refl
take_none (suc n) = refl

add_sub_left : (a b : ℕ) → a + b - a ≡ b
add_sub_left a b = omega arith

-- The entries that a list of IDs names, with none missing.
abbrev pub Names : Dlq → List Bytes → Option (List Entry) → Type 0
Names q ids found =
    (es : List Entry) × (found ≡ some es) × (map (λ id. lookup id q.entries) ids ≡ map some es)

module _ (q : Dlq) (v : IsListed q) where
  stored_at :
      (i : ℕ) (id : Bytes)
      → get_elem? q.order i ≡ some id
      → (e : Entry) × (lookup id q.entries ≡ some e)
  stored_at i id h = elim (Option-cases (lookup id q.entries)) [
    | inl e ↦ absurd (omega (arith, count_pos q.order i id h, v.listed id, ap stored e))
    | inr found ↦ found
  ]

  list_loop-Names :
      (n i : ℕ) → i + n ≤ length q.order → Names q (take n (drop i q.order)) (list_loop q n i)
  unfolding list_loop
  list_loop-Names zero i h = ([], refl, refl)
  list_loop-Names (suc n) i h =
      let (id, here, rest) = at_index q.order i (omega arith) in
      let (e, found) = stored_at i id here in
      let (es, loop, eqs) = list_loop-Names n (i + 1) (omega arith) in
      let next : i + 1 ≡ suc i = omega arith in
      (
        e ∷ es,
        rw (here, list_loop) (rw (loop, found) refl),
        rw rest (
            ap₂ ◌∷◌ found
              (ap (λ k. map (λ j. lookup j q.entries) (take n (drop k q.order))) (sym next) ∙ eqs)),
      )

  -- `List(offset, limit)` never reads past the order list, and gives the stored entries of the IDs
  -- `offset` to `offset + limit` of the order, in order, with none missing.
  list-Names : (offset limit : ℕ) → Names q (take limit (drop offset q.order)) (list offset limit q)
  unfolding list
  list-Names offset limit = elim (Bool-cases (leb (length q.order) offset)) [
    | inl past ↦
        subst₂ (Names q)
          (sym (ap (take limit) (drop_none offset q.order (leb→le _ _ past)) ∙ take_none limit))
          (sym (if-true (leb (length q.order) offset) _ _ past)) ([], refl, refl)
    | inr inside ↦ elim (Bool-cases (ltb (length q.order) (offset + limit))) [
      | inl over ↦
          subst₂ (Names q) (slice (leb-false→lt _ _ inside) (ltb→lt _ _ over))
            (sym (
              if-false (leb (length q.order) offset) _ _ inside
              ∙ ap (λ end. list_loop q (end - offset) offset)
                  (if-true (ltb (length q.order) (offset + limit)) _ _ over)))
            (list_loop-Names (length q.order - offset) offset
              (omega (arith, leb-false→lt _ _ inside)))
      | inr fits ↦
          subst₂ (Names q) refl
            (sym (
              if-false (leb (length q.order) offset) _ _ inside
              ∙ ap (λ end. list_loop q (end - offset) offset)
                  (if-false (ltb (length q.order) (offset + limit)) _ _ fits)
              ∙ ap (λ n. list_loop q n offset) (add_sub_left offset limit)))
            (list_loop-Names limit offset (ltb-false→le _ _ fits))
    ]
  ]
    where
      slice :
          offset < length q.order
          → length q.order < offset + limit
          → take (length q.order - offset) (drop offset q.order) ≡ take limit (drop offset q.order)
      slice p h =
          ap (λ n. take n (drop offset q.order)) (sym (length-drop offset q.order))
          ∙ take-past limit (drop offset q.order) (omega (arith, length-drop offset q.order))
