-- ===== src/Dlq.antt =====
-- internal/queue/dlq.go: the dead letter queue. The mutex makes each method but `Get` atomic.
pub mod Order
pub mod Contents
use vortexmq.Prelude.{
  ℕ, zero, suc, ◌+◌, ◌-◌, Bool, true, false, Option, none, some, List, [], ◌∷◌, ◌++◌, ltb, leb,
  ◌==◌, ◌&&◌, if◌then◌else◌, ite, length, tail, get_elem?, Bytes, bytes_dec, Map, lookup, insert,
  delete,
}
use vortexmq.Int.{ℤ, pos, negsuc}
use vortexmq.Message.{Message, clone}

-- `DeadLetterEntry`
pub record Entry : Type 0 where
  pub message : Message
  pub failed_at : ℤ
  pub failure_cause : Bytes
  pub attempts : ℤ

-- `DeadLetterQueue`
pub record Dlq : Type 0 where
  pub entries : Map Entry
  pub order : List Bytes
  pub max_size : ℕ

-- `NewDeadLetterQueue`
unfoldable pub new : ℤ → Dlq
new (negsuc _) = record { entries = []; order = []; max_size = 50000 }
new (pos n) = record { entries = []; order = []; max_size = if n == 0 then 50000 else n }

-- The first `if` of `Add`: at capacity the oldest goes.
unfoldable pub evict_first : Dlq → List Bytes → Dlq
evict_first q [] = q
evict_first q (oldest ∷ rest) = record q { entries = delete oldest q.entries; order = rest }

unfoldable pub evict : Dlq → Dlq
evict q = if leb q.max_size (length q.entries) then evict_first q q.order else q

-- The second `if`: a new ID goes to the end of the order.
unfoldable pub note_order : Bytes → Dlq → List Bytes
note_order id q = elim (lookup id q.entries) [ none ↦ q.order ++ (id ∷ []) | some _ ↦ q.order ]

unfoldable pub record_of : Message → Bytes → ℤ → Entry
record_of msg cause now = record {
  message = clone msg;
  failed_at = now;
  failure_cause = cause;
  attempts = msg.retry_count;
}

-- `Add`, at the time `now`
unfoldable pub add : Message → Bytes → ℤ → Dlq → Dlq
add msg cause now q =
    let q' = evict q in
    record q' {
      entries = insert msg.id (record_of msg cause now) q'.entries;
      order = note_order msg.id q';
    }

-- `for i := offset; i < end; i++`: an index out of range panics, an ID with no entry is passed over.
unfoldable pub list_loop : Dlq → ℕ → ℕ → Option (List Entry)
list_loop q zero i = some []
list_loop q (suc n) i = elim (get_elem? q.order i) [
  | none ↦ none
  | some id ↦ elim (list_loop q n (i + 1)) [
    | none ↦ none
    | some rest ↦ elim (lookup id q.entries) [ none ↦ some rest | some e ↦ some (e ∷ rest) ]
  ]
]

-- `List` for an offset and a limit of zero or more, which is what the callers pass.
unfoldable pub list : ℕ → ℕ → Dlq → Option (List Entry)
list offset limit q =
    let total = length q.order in
    let end = if ltb total (offset + limit) then total else offset + limit in
    if leb total offset then some [] else list_loop q (end - offset) offset

-- The loop of `Remove`: the first occurrence of the ID goes.
unfoldable pub remove_order : Bytes → List Bytes → List Bytes
remove_order id [] = []
remove_order id (oid ∷ order) = ite (bytes_dec oid id) order (oid ∷ remove_order id order)

-- `Remove`
unfoldable pub remove : Bytes → Dlq → Dlq × Option Message
remove id q = elim (lookup id q.entries) [
  | none ↦ (q, none)
  | some e ↦
      (record q { entries = delete id q.entries; order = remove_order id q.order }, some e.message)
]

-- `Len`
unfoldable pub len : Dlq → ℕ
len q = length q.entries

-- `Purge`
unfoldable pub purge : Dlq → Dlq × ℕ
purge q = (record q { entries = []; order = [] }, length q.entries)

-- The readers that hold `dlq.mu`. Go's runtime stops the program at an `RUnlock` that no reader owes.
unfoldable pub r_unlock : ℕ → Option ℕ
r_unlock zero = none
r_unlock (suc n) = some n

-- `Get`, with `readers` holding the lock when it is called: it unlocks first, and again at its end.
unfoldable pub get : Bytes → Dlq → ℕ → Option (Option Entry × ℕ)
get id q readers = elim (r_unlock readers) [
  | none ↦ none
  | some n ↦ elim (r_unlock n) [ none ↦ none | some m ↦ some (lookup id q.entries, m) ]
]
