-- ===== src/Tests/DlqTests.antt =====
-- internal/queue/dlq.go on a queue for one message.
use vortexmq.Prelude.{◌≡◌, refl, none, some, [], ◌∷◌, ite, Bytes, bytes_dec, lookup, insert, delete}
use vortexmq.Int.{pos}
use vortexmq.Text.{codes}
use vortexmq.Message.{clone}
use vortexmq.Dlq.{Dlq, new, add, remove, record_of, evict, evict_first, note_order}
use vortexmq.Dlq.Order.{IsValid, new-IsValid, add-IsValid}
use vortexmq.Dlq.Contents.{victim, without, lookup-add, remove-add}
use vortexmq.Tests.Samples.{letter, other}

abbrev reason : Bytes
reason = codes "boom"

abbrev one_letter : Dlq
one_letter = add letter reason (pos 9) (new (pos 1))

one_letter-IsValid : IsValid one_letter
one_letter-IsValid = add-IsValid (new (pos 1)) letter reason (pos 9) (new-IsValid (pos 1))

-- The second message pushes the first out.
evicts : (add other reason (pos 10) one_letter).order ≡ codes "1-2-00ff" ∷ []
unfolding add new evict evict_first note_order lookup insert delete
evicts = refl

add-IsValid_example : IsValid (add other reason (pos 10) one_letter)
add-IsValid_example = add-IsValid one_letter other reason (pos 10) one_letter-IsValid

lookup-add_example :
    lookup letter.id (add other reason (pos 10) one_letter).entries
    ≡ ite
        (bytes_dec other.id letter.id)
        (some (record_of other reason (pos 10)))
        (without (victim one_letter) letter.id (lookup letter.id one_letter.entries))
lookup-add_example = lookup-add one_letter other reason (pos 10) letter.id

remove-add_example :
    ((remove other.id (add other reason (pos 10) one_letter)).1 ≡ some (clone other))
    × (lookup other.id (remove other.id (add other reason (pos 10) one_letter)).0.entries ≡ none)
remove-add_example = remove-add one_letter other reason (pos 10)
