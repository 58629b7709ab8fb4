-- ===== src/Cli/Input.antt =====
-- cmd/vortexmq-cli/main.go: what the client takes from its connection: a line, the length in it, and, behind
-- AUTH, the command that internal/protocol/resp.go reads. The connection is what each Read of it will
-- return, `none` for an error; where nothing is left to be returned, a Read does not return.
use vortexmq.Prelude.{
  ℕ, zero, suc, ◌+◌, ◌^◌, Bool, true, false, ◌&&◌, Option, none, some, List, [], ◌∷◌, ◌++◌,
  if◌then◌else◌, ltb, leb, ◌==◌, length, drop, Bytes,
}
use vortexmq.Int.{ℤ, pos, negsuc}
use vortexmq.Text.{digits}
use vortexmq.Resp.{
  max_bulk_length, max_command_args, split_line, drop_cr, parse_uint, parse_int, is_digit, is_space,
}

-- `ReadCommand` on a stream that is still coming: whether it has what it waits for.
unfoldable pub sized_done : (Bytes → Bool) → Option ℤ → Bytes → Bool
sized_done more none rest = true
sized_done more (some (negsuc n)) rest = more rest
sized_done more (some (pos n)) rest =
    if ltb max_bulk_length n then true else leb (n + 2) (length rest) && more (drop (n + 2) rest)

unfoldable pub bulk_done : (Bytes → Bool) → Bytes → Bytes → Bool
bulk_done more [] rest = true
bulk_done more (c ∷ line) rest = if c == b'$' then sized_done more (parse_int line) rest else true

unfoldable pub args_done : ℕ → Bytes → Bool
args_done zero bs = true
args_done (suc n) bs = elim (split_line bs) [
  | none ↦ false
  | some (line, rest) ↦ bulk_done (args_done n) (drop_cr line) rest
]

unfoldable pub count_done : Option ℤ → Bytes → Bool
count_done (some (pos n)) rest = if ltb max_command_args n then true else args_done n rest
count_done (some (negsuc n)) rest = true
count_done none rest = true

unfoldable pub first_done : Bytes → Bytes → Bool
first_done [] rest = true
first_done (c ∷ line) rest = if c == b'*' then count_done (parse_uint line) rest else true

unfoldable pub command_done : Bytes → Bool
command_done bs = elim (split_line bs) [
  | none ↦ false
  | some (line, rest) ↦ first_done (drop_cr line) rest
]

-- The `ReadCommand` behind AUTH, whose result is dropped: the reads that it leaves.
unfoldable pub await_command : Bytes → List (Option Bytes) → Option (List (Option Bytes))
await_command acc [] = none
await_command acc (none ∷ reads) = some reads
await_command acc (some got ∷ reads) =
    let rest = await_command (acc ++ got) reads in
    if command_done (acc ++ got) then some reads else rest

-- `ReadString('\n')` of a new bufio.Reader: the line with its newline and what the buffer holds behind
-- it, or the text before an error.
pub data Line : Type 0 where
  waits : Line
  cut_off : Bytes → List (Option Bytes) → Line
  whole : Bytes → Bytes → List (Option Bytes) → Line

unfoldable pub read_string : Bytes → List (Option Bytes) → Line
read_string acc [] = waits
read_string acc (none ∷ reads) = cut_off acc reads
read_string acc (some got ∷ reads) = elim (split_line got) [
  | none ↦ read_string (acc ++ got) reads
  | some (line, rest) ↦ whole (acc ++ (line ++ (b'\n' ∷ []))) rest reads
]

-- `fmt.Sscanf(respLine, "$%d", &length)`, with 0 for its errors
unfoldable pub scan_digits : Bytes → Bytes
scan_digits [] = []
scan_digits (c ∷ bs) = let rest = scan_digits bs in if is_digit c then c ∷ rest else []

unfoldable pub scanned : Option ℕ → ℤ
scanned none = pos 0
scanned (some n) = if ltb n (2 ^ 63) then pos n else pos 0

unfoldable pub scanned_neg : Option ℕ → ℤ
scanned_neg none = pos 0
scanned_neg (some zero) = pos 0
scanned_neg (some (suc n)) = if ltb n (2 ^ 63) then negsuc n else pos 0

unfoldable pub scan_int : Bytes → ℤ
scan_int [] = pos 0
scan_int (c ∷ bs) =
    let spaced = scan_int bs in
    if c == b'\n'
    then pos 0
    else if is_space c
    then spaced
    else if c == b'-'
    then scanned_neg (digits (scan_digits bs))
    else if c == b'+'
    then scanned (digits (scan_digits bs))
    else scanned (digits (scan_digits (c ∷ bs)))
