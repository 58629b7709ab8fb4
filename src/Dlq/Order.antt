-- ===== src/Dlq/Order.antt =====
-- internal/queue/dlq.go: the order list names each stored ID once, and the queue stays within its size.
use vortexmq.Prelude.{
  ℕ, suc, ◌+◌, ◌≤◌, ◌<◌, ◌≡◌, refl, ap, ◌∙◌, sym, arith, inl, inr, ite, if_pos, if_neg, Option,
  none, some, List, [], ◌∷◌, ◌++◌, leb, leb→le, leb-false→lt, Bool-cases, Option-cases, length,
  length-append, Bytes, bytes_dec, IsMap, lookup, insert, delete, lookup-insert, lookup-delete,
  delete-IsMap, insert-IsMap, length-delete, length-insert_new, length-insert_old,
}
use vortexmq.Int.{ℤ, pos, negsuc}
use vortexmq.Message.{Message}
use vortexmq.Dlq.{
  Entry, Dlq, new, evict_first, evict, note_order, record_of, add, remove_order, remove,
}

-- How often an ID is in a list.
unfoldable pub count : Bytes → List Bytes → ℕ
count id [] = 0
count id (x ∷ xs) = ite (bytes_dec x id) (suc (count id xs)) (count id xs)

abbrev pub stored {ℓ} : {V : Type ℓ} → Option V → ℕ
stored none = 0
stored (some _) = 1

-- The queue apart from its bound: the order names exactly the stored IDs, each once.
pub record IsListed (q : Dlq) : Type 0 where
  pub unique : IsMap q.entries
  pub listed : (id : Bytes) → count id q.order ≡ stored (lookup id q.entries)
  pub sizes : length q.order ≡ length q.entries

pub record IsValid (q : Dlq) : Type 0 where
  pub shape : IsListed q
  pub bounded : length q.entries ≤ q.max_size
  pub positive : 0 < q.max_size

count-append : (id : Bytes) (xs ys : List Bytes) → count id (xs ++ ys) ≡ count id xs + count id ys
unfolding count
count-append id [] ys = omega arith
count-append id (x ∷ xs) ys = ground (arith, count-append id xs ys)

count-remove_order :
    (id j : Bytes) (xs : List Bytes)
    → count id xs ≡ 1
    → count j (remove_order id xs) ≡ ite (bytes_dec id j) 0 (count j xs)
unfolding count remove_order
count-remove_order id j [] h = absurd (omega arith)
count-remove_order id j (x ∷ xs) h = ground (arith, count-remove_order id j xs)

length-remove_order :
    (id : Bytes) (xs : List Bytes) → count id xs ≡ 1 → length (remove_order id xs) + 1 ≡ length xs
unfolding count remove_order
length-remove_order id [] h = absurd (omega arith)
length-remove_order id (x ∷ xs) h = ground (arith, length-remove_order id xs)

at_head : (id : Bytes) (xs : List Bytes) → count id (id ∷ xs) ≡ suc (count id xs)
unfolding count
at_head id xs = if_pos (bytes_dec id id) refl _ _

in_head : (j id : Bytes) (xs : List Bytes) → id ≡ j → count j (id ∷ xs) ≡ suc (count j xs)
unfolding count
in_head j id xs p = if_pos (bytes_dec id j) p _ _

off_head : (j id : Bytes) (xs : List Bytes) → ¬ (id ≡ j) → count j (id ∷ xs) ≡ count j xs
unfolding count
off_head j id xs p = if_neg (bytes_dec id j) p _ _

pub new-IsValid : (n : ℤ) → IsValid (new n)
unfolding new lookup count
new-IsValid (negsuc n) = record {
  shape = record { unique = tt; listed = λ id. refl; sizes = refl };
  bounded = omega arith;
  positive = omega arith;
}
new-IsValid (pos n) = record {
  shape = record { unique = tt; listed = λ id. refl; sizes = refl };
  bounded = omega arith;
  positive = ground arith;
}

module _ (q : Dlq) (v : IsListed q) where
  -- Dropping a stored ID, from the map and from the order.
  drop-IsListed :
      (id : Bytes) (order : List Bytes) (e : Entry)
      → lookup id q.entries ≡ some e
      → ((j : Bytes) → count j order ≡ ite (bytes_dec id j) 0 (count j q.order))
      → length order + 1 ≡ length q.order
      → IsListed (record q { entries = delete id q.entries; order = order })
  drop-IsListed id order e here counts size = record {
    unique = delete-IsMap id q.entries v.unique;
    listed = λ j. ground (arith, counts j, v.listed j, lookup-delete id j q.entries);
    sizes = omega (arith, size, v.sizes, length-delete id e q.entries v.unique here);
  }

  pub remove-IsListed : (id : Bytes) → IsListed (remove id q).0
  unfolding remove
  remove-IsListed id = elim (Option-cases (lookup id q.entries)) [
    | inl e ↦ rw (e, remove) v
    | inr (x, e) ↦
        let once : count id q.order ≡ 1 = v.listed id ∙ ap stored e in
        rw (e, remove)
          (drop-IsListed id (remove_order id q.order) x e
            (λ j. count-remove_order id j q.order once) (length-remove_order id q.order once))
  ]

  evict_first-IsListed : (order : List Bytes) → q.order ≡ order → IsListed (evict_first q order)
  unfolding evict_first
  evict_first-IsListed [] o = v
  evict_first-IsListed (id ∷ rest) o = elim (Option-cases (lookup id q.entries)) [
    | inl e ↦ absurd (omega (arith, v.listed id, ap (count id) o, at_head id rest, ap stored e))
    | inr (x, e) ↦
        drop-IsListed id rest x e (λ j. rest_counts j (ap stored e)) (omega (arith, ap length o))
  ]
    where
      rest_counts :
          (j : Bytes)
          → stored (lookup id q.entries) ≡ 1
          → count j rest ≡ ite (bytes_dec id j) 0 (count j q.order)
      rest_counts j e = elim (bytes_dec id j) [
        | yes p ↦ rw (if_pos (bytes_dec id j) p) (
            omega (
              arith,
              v.listed j,
              ap (count j) o,
              in_head j id rest p,
              ap (λ k. stored (lookup k q.entries)) (sym p),
            ))
        | no p ↦ rw (if_neg (bytes_dec id j) p) (sym (ap (count j) o ∙ off_head j id rest p))
      ]

  evict-IsListed : IsListed (evict q)
  unfolding evict
  evict-IsListed = elim (Bool-cases (leb q.max_size (length q.entries))) [
    | inl e ↦ rw (e, evict) (evict_first-IsListed q.order refl)
    | inr e ↦ rw (e, evict) v
  ]

  evict_first-shorter :
      (order : List Bytes)
      → q.order ≡ order
      → 0 < length q.entries
      → length (evict_first q order).entries + 1 ≡ length q.entries
  unfolding evict_first
  evict_first-shorter [] o h = absurd (omega (arith, ap length o, v.sizes))
  evict_first-shorter (id ∷ rest) o h =
      omega (arith, (evict_first-IsListed (id ∷ rest) o).sizes, ap length o, v.sizes)

max-evict_first : (q : Dlq) (order : List Bytes) → (evict_first q order).max_size ≡ q.max_size
unfolding evict_first
max-evict_first q [] = refl
max-evict_first q (id ∷ rest) = refl

pub max-evict : (q : Dlq) → (evict q).max_size ≡ q.max_size
unfolding evict
max-evict q = ground (arith, max-evict_first q q.order)

-- After the eviction there is room for one more.
evict-room : (q : Dlq) → IsValid q → length (evict q).entries < q.max_size
unfolding evict
evict-room q v = elim (Bool-cases (leb q.max_size (length q.entries))) [
  | inl e ↦
      rw (e, evict)
        (omega (
          arith,
          v.bounded,
          v.positive,
          evict_first-shorter q v.shape q.order refl
              (omega (arith, leb→le q.max_size (length q.entries) e, v.positive)),
        ))
  | inr e ↦ rw (e, evict) (leb-false→lt q.max_size (length q.entries) e)
]

module _ (q : Dlq) (v : IsListed q) (id : Bytes) (e : Entry) where
  put : Dlq
  put = record q { entries = insert id e q.entries; order = note_order id q }

  put-listed :
      (j : Bytes) (o : Option Entry)
      → lookup id q.entries ≡ o
      → count j (note_order id q) ≡ stored (lookup j (insert id e q.entries))
  unfolding note_order count
  put-listed j none h =
      rw (h, note_order)
        (ground
          (arith, count-append j q.order (id ∷ []), v.listed j, lookup-insert id j e q.entries))
  put-listed j (some x) h =
      rw (h, note_order) (ground (arith, v.listed j, lookup-insert id j e q.entries))

  put-sizes :
      (o : Option Entry)
      → lookup id q.entries ≡ o
      → length (note_order id q) ≡ length (insert id e q.entries)
  unfolding note_order
  put-sizes none h =
      rw (h, note_order)
        (omega
          (arith, length-append q.order (id ∷ []), v.sizes, length-insert_new id e q.entries h))
  put-sizes (some x) h =
      rw (h, note_order) (omega (arith, v.sizes, length-insert_old id e x q.entries h))

  put-IsListed : IsListed put
  unfolding put
  put-IsListed = record {
    unique = insert-IsMap id e q.entries v.unique;
    listed = λ j. put-listed j (lookup id q.entries) refl;
    sizes = put-sizes (lookup id q.entries) refl;
  }

  put-length-le : length (insert id e q.entries) ≤ length q.entries + 1
  put-length-le = elim (Option-cases (lookup id q.entries)) [
    | inl h ↦ omega (arith, length-insert_new id e q.entries h)
    | inr (x, h) ↦ omega (arith, length-insert_old id e x q.entries h)
  ]

-- `Add` keeps the order list and the map in step, and the queue within its size.
pub add-IsValid :
    (q : Dlq) (msg : Message) (cause : Bytes) (now : ℤ) → IsValid q → IsValid (add msg cause now q)
unfolding add put
add-IsValid q msg cause now v = record {
  shape = put-IsListed (evict q) (evict-IsListed q v.shape) msg.id (record_of msg cause now);
  bounded = omega (
    arith,
    max-evict q,
    evict-room q v,
    put-length-le (evict q) (evict-IsListed q v.shape) msg.id (record_of msg cause now),
  );
  positive = omega (arith, max-evict q, v.positive);
}

-- `Remove` keeps them in step too.
remove-IsValid : (q : Dlq) (id : Bytes) → IsValid q → IsValid (remove id q).0
unfolding remove
remove-IsValid q id v = elim (Option-cases (lookup id q.entries)) [
  | inl e ↦ rw (e, remove) v
  | inr (x, e) ↦
      let shape = remove-IsListed q v.shape id in
      record {
        shape = shape;
        bounded =
            rw (e, remove)
              (omega (arith, v.bounded, length-delete id x q.entries v.shape.unique e));
        positive = rw (e, remove) v.positive;
      }
]
