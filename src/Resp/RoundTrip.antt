-- ===== src/Resp/RoundTrip.antt =====
-- internal/protocol/resp.go: ReadCommand on what WriteArray and WriteBulkString write.
use vortexmq.Prelude.{
  ℕ, ◌+◌, ◌≤◌, false, Option, none, some, List, [], ◌∷◌, ◌++◌, not-ltb, ◌==◌, if-false, length,
  length-append, take_append, append_assoc, Bytes, ◌≡◌, ◌≢◌, refl, sym, ap, ◌∙◌, arith,
}
use vortexmq.Int.{pos, negsuc, wrap64, ◌-ℤ◌, ◌+ℤ◌, ◌*ℤ◌}
use vortexmq.Text.{decimal}
use vortexmq.Stream.{read_full, read_full_append}
use vortexmq.Resp.{
  got, Unicode, crlf, max_bulk_length, max_command_args, buffer_size, read_line, parse_uint,
  parse_uint_loop, parse_int, bytes_of, to_upper, read_body, read_sized, read_bulk, read_arg,
  read_args, read_array, array_command, read_first, read_command_by, read_command,
  write_bulk_string, write_elements, write_array,
}
use vortexmq.Resp.Lines.{NoNewline, read_line-crlf}
use vortexmq.Resp.Numbers.{AllDigits, decimal-IsNumeral, parse_uint-decimal}

-- No argument is longer than a reader takes.
abbrev pub IsShort : Option Bytes → Type 0
IsShort none = Unit
IsShort (some b) = length b ≤ max_bulk_length

abbrev pub AllShort : List (Option Bytes) → Type 0
AllShort [] = Unit
AllShort (el ∷ els) = IsShort el × AllShort els

AllDigits-NoNewline : (bs : Bytes) → AllDigits bs → NoNewline bs
AllDigits-NoNewline [] h = tt
AllDigits-NoNewline (c ∷ bs) ((lo, hi), h) = (omega arith, AllDigits-NoNewline bs h)

parse_int-digits : (bs : Bytes) → AllDigits bs → parse_int bs ≡ parse_uint bs
unfolding parse_int parse_uint
parse_int-digits [] h = refl
parse_int-digits (c ∷ bs) ((lo, hi), h) = if-false _ _ _ digit
  where
    digit : (c == b'-') ≡ false
    digit = ground arith

parse_int-null : parse_int (b'-' ∷ b'1' ∷ []) ≡ some (negsuc 0)
unfolding parse_int parse_uint parse_uint_loop wrap64 ◌-ℤ◌ ◌+ℤ◌ ◌*ℤ◌
parse_int-null = refl

module _ (size : ℕ) (large : 2 ≤ size) where
  -- The line of a length or a count.
  read_line-decimal :
      (c n : ℕ) (rest : Bytes)
      → c ≢ b'\n'
      → read_line size (c ∷ (decimal n ++ (crlf ++ rest))) ≡ some (c ∷ decimal n, rest)
  read_line-decimal c n rest h =
      read_line-crlf size large (c ∷ decimal n) rest
        (h, AllDigits-NoNewline _ (decimal-IsNumeral n).digits)

  read_body-at : (b rest : Bytes) → read_body (length b) ((b ++ crlf) ++ rest) ≡ got (some b) rest
  unfolding read_body
  read_body-at b rest = rw (filled, read_body) (ap (λ x. got (some x) rest) (take_append b crlf))
    where
      filled : read_full (length b + 2) ((b ++ crlf) ++ rest) ≡ some (b ++ crlf, rest)
      filled =
          ap (λ n. read_full n ((b ++ crlf) ++ rest)) (sym (length-append b crlf))
          ∙ read_full_append (b ++ crlf) rest

  read_arg-write_bulk_string :
      (el : Option Bytes) (rest : Bytes)
      → IsShort el
      → read_arg size (write_bulk_string el ++ rest) ≡ got el rest
  unfolding read_arg read_bulk read_sized write_bulk_string
  read_arg-write_bulk_string none rest h =
      rw (minus_one, read_arg) (rw (parse_int-null, read_bulk) refl)
    where
      minus_one :
          read_line size (b'$' ∷ b'-' ∷ b'1' ∷ b'\r' ∷ b'\n' ∷ rest)
          ≡ some (b'$' ∷ b'-' ∷ b'1' ∷ [], rest)
      minus_one = read_line-crlf size large (b'$' ∷ b'-' ∷ b'1' ∷ []) rest (omega arith)
  read_arg-write_bulk_string (some b) rest h =
      rw (sized, read_arg)
        (rw (parsed, read_bulk)
          (if-false _ _ _ (not-ltb max_bulk_length (length b) h) ∙ read_body-at b rest))
    where
      sized :
          read_line size (write_bulk_string (some b) ++ rest)
          ≡ some (b'$' ∷ decimal (length b), (b ++ crlf) ++ rest)
      sized =
          ap (λ l. read_line size (b'$' ∷ l))
            (append_assoc (decimal (length b)) (crlf ++ (b ++ crlf)) rest)
          ∙ read_line-decimal b'$' (length b) ((b ++ crlf) ++ rest) (omega arith)

      parsed : parse_int (decimal (length b)) ≡ some (pos (length b))
      parsed =
          parse_int-digits _ (decimal-IsNumeral (length b)).digits
          ∙ parse_uint-decimal (length b) (omega arith)

  read_args-write_elements :
      (els : List (Option Bytes)) (rest : Bytes)
      → AllShort els
      → read_args size (length els) (write_elements els ++ rest) ≡ got els rest
  unfolding read_args write_elements
  read_args-write_elements [] rest h = refl
  read_args-write_elements (el ∷ els) rest (h, hs) =
      rw (first, read_args) (rw (read_args-write_elements els rest hs, read_args) refl)
    where
      first :
          read_arg size ((write_bulk_string el ++ write_elements els) ++ rest)
          ≡ got el (write_elements els ++ rest)
      first =
          ap (read_arg size) (append_assoc (write_bulk_string el) (write_elements els) rest)
          ∙ read_arg-write_bulk_string el (write_elements els ++ rest) h

  -- A command that a client writes with WriteArray, in which nil slices are null bulk strings, reads as
  -- it was written, its name in upper case; what the client sends after it is left in the stream.
  pub read_command_by-write_array :
      (uni : Unicode) (name : Option Bytes) (args : List (Option Bytes)) (rest : Bytes)
      → AllShort (name ∷ args)
      → length (name ∷ args) ≤ max_command_args
      → read_command_by uni size (write_array (name ∷ args) ++ rest)
        ≡ got (record { name = to_upper uni (bytes_of name); args = args }) rest
  unfolding read_command_by read_first read_array array_command write_array
  read_command_by-write_array uni name args rest short few =
      rw (counted, read_command_by)
        (rw (parsed, read_first)
          (if-false _ _ _ positive
            ∙ if-false _ _ _ (not-ltb max_command_args (length (name ∷ args)) few)
            ∙ rw (read_args-write_elements (name ∷ args) rest short, read_array) refl))
    where
      counted :
          read_line size (write_array (name ∷ args) ++ rest)
          ≡ some (b'*' ∷ decimal (length (name ∷ args)), write_elements (name ∷ args) ++ rest)
      counted =
          ap (λ l. read_line size (b'*' ∷ l))
            (append_assoc (decimal (length (name ∷ args))) (crlf ++ write_elements (name ∷ args))
              rest)
          ∙ read_line-decimal b'*' (length (name ∷ args)) (write_elements (name ∷ args) ++ rest)
              (omega arith)

      positive : (length (name ∷ args) == 0) ≡ false
      positive = ground arith

      parsed : parse_uint (decimal (length (name ∷ args))) ≡ some (pos (length (name ∷ args)))
      parsed = parse_uint-decimal (length (name ∷ args)) (omega arith)

-- `ReadCommand` with the reader's buffer, on what `WriteArray` writes of at least one and at most 65,536
-- elements, nil or of at most 64 MB each: the command comes back, its name in upper case, and nothing beyond it is read.
pub read_command-write_array :
    (uni : Unicode) (name : Option Bytes) (args : List (Option Bytes)) (rest : Bytes)
    → AllShort (name ∷ args)
    → length (name ∷ args) ≤ max_command_args
    → read_command uni (write_array (name ∷ args) ++ rest)
      ≡ got (record { name = to_upper uni (bytes_of name); args = args }) rest
unfolding read_command
read_command-write_array = read_command_by-write_array buffer_size (omega arith)
