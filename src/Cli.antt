-- ===== src/Cli.antt =====
-- cmd/vortexmq-cli/main.go: the command line client, from an open connection on. The scanner gives the
-- lines that are typed.
pub mod Output
pub mod Input
pub mod Silence
pub mod Display
use mathlib.Core.Option
use vortexmq.Prelude.{
  ℕ, zero, suc, ◌+◌, ◌-◌, ◌^◌, Bool, true, false, ◌&&◌, ◌||◌, Option, none, some, List, [], ◌∷◌,
  ◌++◌, map, reverse, ite, if◌then◌else◌, ltb, leb, ◌==◌, bytes_dec, length, take, drop, replicate,
  Bytes,
}
use vortexmq.Int.{ℤ, pos, negsuc}
use vortexmq.Text.{codes, decimal, digits}
use vortexmq.Resp.{
  Unicode, crlf, null_bulk, buffer_size, max_bulk_length, max_command_args, split_line, drop_cr,
  parse_uint, parse_int, is_ascii, is_digit, is_space, upper_byte, fields,
}
use vortexmq.Cli.Output.{Out, nothing_out, send}
use vortexmq.Cli.Input.{await_command, Line, waits, cut_off, whole, read_string, scan_int}

-- The client: its output, what each Read of the connection will return (`none` for an error), and
-- what it has printed. Where nothing is left to be returned, a Read does not return.
pub record Client : Type 0 where
  pub out : Out
  pub reads : List (Option Bytes)
  pub screen : Bytes

pub data Outcome : Type 0 where
  ended : Client → Outcome
  blocked : Client → Outcome
  crashed : Outcome

abbrev pub print : Bytes → Client → Client
print bs c = record c { screen = c.screen ++ bs }

-- What `lineReader.Read(payload)` puts in front of the zeros of its `make`.
unfoldable pub padded : ℕ → Bytes → Bytes
padded n bs = take n (bs ++ replicate n 0)

-- The payload from what is buffered, else from one Read of the connection; `none` where that waits.
unfoldable pub read_payload : Bytes → List (Option Bytes) → Option (Bytes × List (Option Bytes))
read_payload (c ∷ unread) reads = some (c ∷ unread, reads)
read_payload [] [] = none
read_payload [] (none ∷ reads) = some ([], reads)
read_payload [] (some got ∷ reads) = some (got, reads)

-- `payload[:length]`, with `make`'s panic where `length + 2` has wrapped.
unfoldable pub show_payload : ℕ → Client → Option (Bytes × List (Option Bytes)) → Outcome
show_payload n c none = blocked c
show_payload n c (some (bs, reads)) =
    ended (print (take n (padded (n + 2) bs) ++ (b'\n' ∷ [])) (record c { reads = reads }))

unfoldable pub show_bulk : ℤ → Bytes → Client → Outcome
show_bulk (negsuc n) unread c = ended (print (codes "(nil)" ++ (b'\n' ∷ [])) c)
show_bulk (pos n) unread c =
    if ltb (n + 2) (2 ^ 63) then show_payload n c (read_payload unread c.reads) else crashed

unfoldable pub show_line : Bytes → Bytes → Client → Outcome
show_line [] unread c = ended c
show_line (b ∷ line) unread c =
    if b == b'$' then show_bulk (scan_int line) unread c else ended (print (b ∷ line) c)

-- A round of the prompt: the answer to the request. The Boolean is false where the loop breaks off.
unfoldable pub going_on : Outcome → Outcome × Bool
going_on (ended c) = (ended c, true)
going_on (blocked c) = (blocked c, false)
going_on crashed = (crashed, false)

unfoldable pub show_answer : Bytes → Client → Line → Outcome × Bool
show_answer error c waits = (blocked c, false)
show_answer error c (cut_off text reads) = (
  ended (
      print (codes "Connection closed by server: " ++ (error ++ (b'\n' ∷ [])))
        (record c { reads = reads })),
  false,
)
show_answer error c (whole line unread reads) =
    going_on (show_line line unread (record c { reads = reads }))

-- A single command: its first line, or what came before an error.
unfoldable pub show_first : Client → Line → Outcome
show_first c waits = blocked c
show_first c (cut_off text reads) = ended (print text (record c { reads = reads }))
show_first c (whole line unread reads) = ended (print line (record c { reads = reads }))

-- `strings.TrimSpace` and `strings.EqualFold` with a lower-case word
unfoldable pub drop_spaces : Bytes → Bytes
drop_spaces [] = []
drop_spaces (c ∷ bs) = let rest = drop_spaces bs in if is_space c then rest else c ∷ bs

unfoldable pub is_word : Bytes → Bytes → Bool
is_word word line = ite (bytes_dec (map upper_byte line) word) true false

-- What the session is given: its flags, how text beyond ASCII is split and trimmed, and how an error
-- of the connection reads.
pub record Setting : Type 0 where
  pub address : Bytes
  pub port : ℕ
  pub password : Bytes
  pub uni : Unicode
  pub trim : Bytes → Bytes
  pub error : Bytes

unfoldable pub request : List Bytes → Client → Client
request words c = record c { out = send words c.out }

module _ (set : Setting) where
  unfoldable pub trim_space : Bytes → Bytes
  trim_space line =
      if is_ascii line then reverse (drop_spaces (reverse (drop_spaces line))) else set.trim line

  -- What becomes of a typed line.
  pub data Typed : Type 0 where
    blank : Typed
    farewell : Typed
    words : List Bytes → Typed

  unfoldable pub typed_trimmed : Bytes → Typed
  typed_trimmed [] = blank
  typed_trimmed (c ∷ line) =
      if is_word (codes "EXIT") (c ∷ line) || is_word (codes "QUIT") (c ∷ line)
      then farewell
      else words (fields set.uni (c ∷ line))

  unfoldable pub typed : Bytes → Typed
  typed line = typed_trimmed (trim_space line)

  unfoldable pub prompt : Client → Client
  prompt c = print (codes "vortexmq:" ++ (decimal set.port ++ codes "> ")) c

  unfoldable pub exchange : List Bytes → Client → Outcome × Bool
  exchange ws c = let c' = request ws c in show_answer set.error c' (read_string [] c'.reads)

  unfoldable pub after_exchange : (Client → Outcome) → Outcome × Bool → Outcome
  after_exchange more (ended c, true) = more c
  after_exchange more (ended c, false) = ended c
  after_exchange more (blocked c, b) = blocked c
  after_exchange more (crashed, b) = crashed

  unfoldable pub round : (Client → Outcome) → Typed → Client → Outcome
  round more blank c = more c
  round more farewell c = ended c
  round more (words ws) c = after_exchange more (exchange ws c)

  -- The loop of the prompt, on the lines that the scanner will give.
  unfoldable pub repl : List Bytes → Client → Outcome
  repl [] c = ended (prompt c)
  repl (line ∷ lines) c = round (repl lines) (typed line) (prompt c)

  unfoldable pub greet : Client → Client
  greet c =
      print
        (codes "Connected to VortexMQ at "
          ++ (set.address ++ (b'\n' ∷ []))
          ++ (codes "Type commands (e.g. PING, LPUSH <topic> <msg>, RPOP <topic>, VMQ.STATS, QUIT):"
              ++ (b'\n' ∷ [])))
        c

  unfoldable pub run_args : List Bytes → List Bytes → Client → Outcome
  run_args [] lines c = repl lines (greet c)
  run_args (arg ∷ args) lines c =
      let c' = request (arg ∷ args) c in show_first c' (read_string [] c'.reads)

  unfoldable pub after_auth :
      List Bytes → List Bytes → Client → Option (List (Option Bytes)) → Outcome
  after_auth args lines c none = blocked c
  after_auth args lines c (some reads) = run_args args lines (record c { reads = reads })

  unfoldable pub authenticate : Bytes → List Bytes → List Bytes → Client → Outcome
  authenticate [] args lines c = run_args args lines c
  authenticate (b ∷ password) args lines c =
      let c' = request (codes "AUTH" ∷ (b ∷ password) ∷ []) c in
      after_auth args lines c' (await_command [] c'.reads)

  -- `main`, behind `net.Dial`; the lines are what the scanner will give.
  unfoldable pub run : List Bytes → List Bytes → List (Option Bytes) → Outcome
  run args lines reads =
      authenticate set.password args lines
        (record { out = nothing_out; reads = reads; screen = [] })

  -- `main`, with what `net.Dial` has answered.
  unfoldable pub connect : Bool → List Bytes → List Bytes → List (Option Bytes) → Outcome
  connect dialed args lines reads =
      if dialed
      then run args lines reads
      else ended (
          print
            (codes "Error: Could not connect to VortexMQ on "
              ++ (set.address ++ (codes ": " ++ (set.error ++ (b'\n' ∷ [])))))
            (record { out = nothing_out; reads = reads; screen = [] }))
