-- ===== src/Cli/Output.antt =====
-- cmd/vortexmq-cli/main.go and the writer of internal/protocol/resp.go: what the client hands to its
-- connection. The writer's calls are in the pieces in which they reach bufio.Writer, whose writes to the
-- connection succeed here.
use vortexmq.Prelude.{
  ◌+◌, ◌-◌, Option, none, some, List, [], ◌∷◌, ◌++◌, map, if◌then◌else◌, leb, length, take, drop,
  Bytes,
}
use vortexmq.Text.{decimal}
use vortexmq.Resp.{crlf, null_bulk, buffer_size}

-- The connection's output: what it has been given, and what bufio.Writer holds back.
pub record Out : Type 0 where
  pub sent : Bytes
  pub held : Bytes

abbrev pub nothing_out : Out
nothing_out = record { sent = []; held = [] }

-- The last round of `bufio.Writer.Write`, on an empty buffer.
unfoldable pub write_rest : Bytes → Out → Out
write_rest bs o =
    if leb (length bs) buffer_size
    then record o { held = bs }
    else record { sent = o.sent ++ bs; held = [] }

-- A buffer with something in it is filled and flushed first.
unfoldable pub fill_out : Bytes → Bytes → Out → Out
fill_out [] bs o = write_rest bs o
fill_out (c ∷ held) bs o =
    let room = buffer_size - length (c ∷ held) in
    write_rest (drop room bs) (record { sent = o.sent ++ ((c ∷ held) ++ take room bs); held = [] })

-- `bufio.Writer.Write`, and `WriteByte` and `WriteString` for the short texts that they are called with
unfoldable pub write_out : Bytes → Out → Out
write_out bs o =
    if leb (length o.held + length bs) buffer_size
    then record o { held = o.held ++ bs }
    else fill_out o.held bs o

unfoldable pub write_pieces : List Bytes → Out → Out
write_pieces [] o = o
write_pieces (piece ∷ pieces) o = write_pieces pieces (write_out piece o)

-- `WriteBulkString` and `WriteArray`
unfoldable pub bulk_pieces : Option Bytes → List Bytes
bulk_pieces none = null_bulk ∷ []
bulk_pieces (some b) = (b'$' ∷ []) ∷ decimal (length b) ∷ crlf ∷ b ∷ crlf ∷ []

unfoldable pub elements_pieces : List (Option Bytes) → List Bytes
elements_pieces [] = []
elements_pieces (el ∷ els) = bulk_pieces el ++ elements_pieces els

unfoldable pub array_pieces : List (Option Bytes) → List Bytes
array_pieces els = (b'*' ∷ []) ∷ decimal (length els) ∷ crlf ∷ elements_pieces els

unfoldable pub send : List Bytes → Out → Out
send words o = write_pieces (array_pieces (map some words)) o
