-- ===== src/Resp.antt =====
-- internal/protocol/resp.go: the RESP reader and writer. A reader is the bytes that its client has yet
-- to send; a writer's call is the bytes that it appends. What Go's bytes package does with text beyond
-- ASCII is a parameter.
pub mod Lines
pub mod Numbers
pub mod RoundTrip
pub mod Progress
pub mod Replies
use mathlib.Core.Option
use vortexmq.Prelude.{
  ℕ, zero, suc, ◌+◌, ◌-◌, Bool, true, false, ◌&&◌, ◌||◌, Option, none, some, List, [], ◌∷◌, ◌++◌,
  map, if◌then◌else◌, ltb, leb, ◌==◌, ite, bytes_dec, length, take, drop, drop_last, Bytes,
}
use vortexmq.Int.{ℤ, pos, negsuc, ◌+ℤ◌, ◌-ℤ◌, ◌*ℤ◌, wrap64}
use vortexmq.Text.{codes, decimal, decimal_ℤ}
use vortexmq.Stream.{read_full}

-- `Command`. An argument is `none` where it is a nil slice.
pub record Command : Type 0 where
  pub name : Bytes
  pub args : List (Option Bytes)

-- The errors of `ReadCommand`, in the order in which it can meet them.
pub data ReadError : Type 0 where
  no_input empty_line empty_inline bad_array_length array_too_long : ReadError
  not_bulk bad_bulk_length bulk_too_long empty_args : ReadError

pub data Read {ℓ} (A : Type ℓ) : Type ℓ where
  failed : ReadError → Read A
  got : A → Bytes → Read A

-- `bytes.ToUpper` and `bytes.Fields` on input with bytes beyond ASCII.
pub record Unicode : Type 0 where
  pub upper : Bytes → Bytes
  pub fields : Bytes → List Bytes

abbrev pub crlf : Bytes
crlf = b'\r' ∷ b'\n' ∷ []

abbrev pub null_bulk : Bytes
null_bulk = b'$' ∷ b'-' ∷ b'1' ∷ b'\r' ∷ b'\n' ∷ []

abbrev pub empty_array : Bytes
empty_array = b'*' ∷ b'0' ∷ b'\r' ∷ b'\n' ∷ []

abbrev pub pong : Bytes
pong = b'+' ∷ b'P' ∷ b'O' ∷ b'N' ∷ b'G' ∷ b'\r' ∷ b'\n' ∷ []

abbrev pub ok : Bytes
ok = b'+' ∷ b'O' ∷ b'K' ∷ b'\r' ∷ b'\n' ∷ []

abbrev pub max_bulk_length : ℕ
max_bulk_length = 67108864

abbrev pub max_command_args : ℕ
max_command_args = 65536

-- The buffer of the reader, 64 * 1024 bytes.
abbrev pub buffer_size : ℕ
buffer_size = 65536

-- The text up to the first newline, and what follows it.
unfoldable pub split_line : Bytes → Option (Bytes × Bytes)
split_line [] = none
split_line (c ∷ bs) =
    let rest = Option.map (λ (p : Bytes × Bytes). (c ∷ p.0, p.1)) (split_line bs) in
    if c == b'\n' then some ([], bs) else rest

-- A carriage return at the end is dropped.
unfoldable pub drop_cr : Bytes → Bytes
drop_cr [] = []
drop_cr (c ∷ []) = if c == b'\r' then [] else c ∷ []
drop_cr (c ∷ d ∷ bs) = c ∷ drop_cr (d ∷ bs)

unfoldable pub ends_cr : Bytes → Bool
ends_cr [] = false
ends_cr (c ∷ []) = c == b'\r'
ends_cr (c ∷ d ∷ bs) = ends_cr (d ∷ bs)

-- A buffer that is full and has no newline: a return at its end is left for the next call.
unfoldable pub full_chunk : ℕ → Bytes → Bytes × Bool × Bytes
full_chunk size bs =
    if ends_cr (take size bs)
    then (drop_last (take size bs), true, b'\r' ∷ drop size bs)
    else (take size bs, true, drop size bs)

-- The last bytes of a stream, which no newline ends.
unfoldable pub last_chunk : Bytes → Option (Bytes × Bool × Bytes)
last_chunk [] = none
last_chunk (c ∷ bs) = some (c ∷ bs, false, [])

-- `bufio.Reader.ReadLine` with a buffer of `size` bytes: the line, `isPrefix` and the rest.
unfoldable pub chunk_of : ℕ → Bytes → Option (Bytes × Bytes) → Option (Bytes × Bool × Bytes)
chunk_of size bs none = if leb size (length bs) then some (full_chunk size bs) else last_chunk bs
chunk_of size bs (some (line, _)) = some (drop_cr line, false, drop (length line + 1) bs)

unfoldable pub read_chunk : ℕ → Bytes → Option (Bytes × Bool × Bytes)
read_chunk size bs = chunk_of size bs (split_line (take size bs))

-- `readLine`, with the chunks so far; the loop is over the chunks of a long line.
unfoldable pub after_chunk :
    (Bytes → Bytes → Option (Bytes × Bytes))
    → Bytes
    → Option (Bytes × Bool × Bytes)
    → Option (Bytes × Bytes)
after_chunk next acc none = none
after_chunk next acc (some (line, true, rest)) = next (acc ++ line) rest
after_chunk next acc (some (line, false, rest)) = some (acc ++ line, rest)

unfoldable pub read_line_loop : ℕ → ℕ → Bytes → Bytes → Option (Bytes × Bytes)
read_line_loop size zero acc bs = none
read_line_loop size (suc fuel) acc bs =
    after_chunk (read_line_loop size fuel) acc (read_chunk size bs)

unfoldable pub read_line : ℕ → Bytes → Option (Bytes × Bytes)
read_line size bs = read_line_loop size (suc (length bs)) [] bs

abbrev pub is_digit : ℕ → Bool
is_digit c = leb b'0' c && leb c b'9'

-- The loop of `parseUintBytes`, on an int that wraps at 64 bits.
unfoldable pub parse_uint_loop : ℤ → Bytes → Option ℤ
parse_uint_loop n [] = some n
parse_uint_loop n (c ∷ bs) =
    let rest = parse_uint_loop (wrap64 (wrap64 (n *ℤ pos 10) +ℤ pos (c - b'0'))) bs in
    if is_digit c then rest else none

-- `parseUintBytes` and `parseIntBytes`; `none` for their errors.
unfoldable pub parse_uint : Bytes → Option ℤ
parse_uint [] = none
parse_uint (c ∷ bs) = parse_uint_loop (pos 0) (c ∷ bs)

unfoldable pub parse_int : Bytes → Option ℤ
parse_int [] = none
parse_int (c ∷ bs) =
    if c == b'-' then Option.map (λ n. wrap64 (pos 0 -ℤ n)) (parse_uint bs) else parse_uint (c ∷ bs)

-- `bytes.ToUpper` and `bytes.Fields`, which go byte by byte on ASCII.
unfoldable pub is_ascii : Bytes → Bool
is_ascii [] = true
is_ascii (c ∷ bs) = ltb c 128 && is_ascii bs

abbrev pub upper_byte : ℕ → ℕ
upper_byte c = if leb b'a' c && leb c b'z' then c - 32 else c

abbrev pub is_space : ℕ → Bool
is_space c = leb 9 c && leb c 13 || c == b' '

-- A byte that is no space joins the word that follows it.
unfoldable pub join_word : Bool → ℕ → List Bytes → List Bytes
join_word true c [] = (c ∷ []) ∷ []
join_word true c (w ∷ ws) = (c ∷ w) ∷ ws
join_word false c ws = (c ∷ []) ∷ ws

abbrev pub starts_word : Bytes → Bool
starts_word [] = false
starts_word (c ∷ bs) = if is_space c then false else true

unfoldable pub ascii_fields : Bytes → List Bytes
ascii_fields [] = []
ascii_fields (c ∷ bs) =
    let words = ascii_fields bs in if is_space c then words else join_word (starts_word bs) c words

-- The bytes of an argument: `string(nil)` is empty.
unfoldable pub bytes_of : Option Bytes → Bytes
bytes_of none = []
bytes_of (some b) = b

module _ (uni : Unicode) where
  unfoldable pub to_upper : Bytes → Bytes
  to_upper bs = if is_ascii bs then map upper_byte bs else uni.upper bs

  unfoldable pub fields : Bytes → List Bytes
  fields bs = if is_ascii bs then ascii_fields bs else uni.fields bs

  -- The branch of an inline command, after `bytes.Fields`. The words of a line that is one chunk are
  -- slices of the buffer of the reader, which the next read overwrites; here they are the values that
  -- they have until then. What the next read does to a payload that the broker has kept of them is among
  -- the changes between the commands of a connection (`between` in Server/Loop).
  unfoldable pub inline_command : List Bytes → Bytes → Read Command
  inline_command [] rest = failed empty_inline
  inline_command (word ∷ words) rest =
      got (record { name = to_upper word; args = map some words }) rest

  -- The command of an array's elements.
  unfoldable pub array_command : List (Option Bytes) → Bytes → Read Command
  array_command [] rest = failed empty_args
  array_command (arg ∷ args) rest =
      got (record { name = to_upper (bytes_of arg); args = args }) rest

-- The body of a bulk string of `n` bytes, with the two bytes after it, which are not looked at.
unfoldable pub read_body : ℕ → Bytes → Read (Option Bytes)
read_body n bs = elim (read_full (n + 2) bs) [
  | none ↦ failed no_input
  | some (buf, rest) ↦ got (some (take n buf)) rest
]

unfoldable pub read_sized : ℤ → Bytes → Read (Option Bytes)
read_sized (negsuc n) rest = got none rest
read_sized (pos n) rest = if ltb max_bulk_length n then failed bulk_too_long else read_body n rest

-- A bulk string's line, and its body.
unfoldable pub read_bulk : Bytes → Bytes → Read (Option Bytes)
read_bulk [] rest = failed not_bulk
read_bulk (c ∷ digits) rest =
    if c == b'$'
    then elim (parse_int digits) [ none ↦ failed bad_bulk_length | some n ↦ read_sized n rest ]
    else failed not_bulk

-- One round of the loop over the elements.
unfoldable pub read_arg : ℕ → Bytes → Read (Option Bytes)
read_arg size bs = elim (read_line size bs) [
  | none ↦ failed no_input
  | some (line, rest) ↦ read_bulk line rest
]

-- `for i := 0; i < count; i++`
unfoldable pub read_args : ℕ → ℕ → Bytes → Read (List (Option Bytes))
read_args size zero bs = got [] bs
read_args size (suc n) bs = elim (read_arg size bs) [
  | failed e ↦ failed e
  | got arg rest ↦ elim (read_args size n rest) [
    | failed e ↦ failed e
    | got args rest' ↦ got (arg ∷ args) rest'
  ]
]

module _ (uni : Unicode) where
  -- The array branch, from its count on.
  unfoldable pub read_array : ℕ → ℤ → Bytes → Read Command
  read_array size (negsuc n) rest = failed bad_array_length
  read_array size (pos n) rest =
      if n == 0
      then failed bad_array_length
      else if ltb max_command_args n
      then failed array_too_long
      else elim (read_args size n rest) [
        | failed e ↦ failed e
        | got args rest' ↦ array_command uni args rest'
      ]

  unfoldable pub read_first : ℕ → Bytes → Bytes → Read Command
  read_first size [] rest = failed empty_line
  read_first size (c ∷ line) rest =
      if c == b'*'
      then elim (parse_uint line) [
        | none ↦ failed bad_array_length
        | some n ↦ read_array size n rest
      ]
      else inline_command uni (fields uni (c ∷ line)) rest

  -- `ReadCommand` with a buffer of `size` bytes
  unfoldable pub read_command_by : ℕ → Bytes → Read Command
  read_command_by size bs = elim (read_line size bs) [
    | none ↦ failed no_input
    | some (line, rest) ↦ read_first size line rest
  ]

  unfoldable pub read_command : Bytes → Read Command
  read_command bs = read_command_by buffer_size bs

-- The writer's calls.
unfoldable pub write_simple_string : Bytes → Bytes
write_simple_string s =
    ite (bytes_dec s (codes "OK")) ok (ite (bytes_dec s (codes "PONG")) pong (b'+' ∷ (s ++ crlf)))

unfoldable pub write_error : Bytes → Bytes
write_error msg = codes "-ERR " ++ (msg ++ crlf)

unfoldable pub write_integer : ℤ → Bytes
write_integer n = b':' ∷ (decimal_ℤ n ++ crlf)

unfoldable pub write_bulk_string : Option Bytes → Bytes
write_bulk_string none = null_bulk
write_bulk_string (some b) = b'$' ∷ (decimal (length b) ++ (crlf ++ (b ++ crlf)))

unfoldable pub write_elements : List (Option Bytes) → Bytes
write_elements [] = []
write_elements (el ∷ els) = write_bulk_string el ++ write_elements els

-- `WriteArray` of a slice that is not nil; the server passes no other.
unfoldable pub write_array : List (Option Bytes) → Bytes
write_array els = b'*' ∷ (decimal (length els) ++ (crlf ++ write_elements els))
