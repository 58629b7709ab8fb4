-- ===== src/Tests/RespTests.antt =====
-- internal/protocol/resp.go on short streams, with text in ASCII.
use vortexmq.Prelude.{◌≡◌, refl, arith, none, some, [], ◌∷◌, ◌++◌, drop_last}
use vortexmq.Int.{pos, negsuc, wrap64, of_word, to_word}
use vortexmq.Text.{codes}
use vortexmq.Resp.{
  got, Unicode, crlf, buffer_size, split_line, drop_cr, ends_cr, full_chunk, last_chunk, chunk_of,
  read_chunk, after_chunk, read_line_loop, read_line, parse_uint, is_ascii, join_word, ascii_fields,
  bytes_of, to_upper, fields, inline_command, read_array, read_first, read_command_by, read_command,
  write_array,
}
use vortexmq.Resp.Lines.{read_line-at}
use vortexmq.Resp.Numbers.{value_from, parse_uint-value}
use vortexmq.Resp.RoundTrip.{read_command-write_array}
use vortexmq.Resp.Progress.{ReadsCommand, Advances, read_array-ReadsCommand, read_command-Advances}

abbrev ascii_only : Unicode
ascii_only = record { upper = λ bs. bs; fields = λ bs. [] }

-- An inline command, with a reader whose buffer holds eight bytes.
inline_run :
    read_command_by ascii_only 8 (codes "lpush  jobs\tv1" ++ crlf)
    ≡ got (record { name = codes "LPUSH"; args = some (codes "jobs") ∷ some (codes "v1") ∷ [] }) []
unfolding read_command_by read_line read_line_loop after_chunk read_chunk chunk_of split_line
    drop_cr ends_cr full_chunk last_chunk read_first fields is_ascii ascii_fields join_word
    inline_command to_upper
inline_run = refl

-- A return at the end of one chunk, and the newline in the next.
split_return : read_line 4 (codes "abc" ++ (b'\r' ∷ b'\n' ∷ 7 ∷ [])) ≡ some (codes "abc", 7 ∷ [])
unfolding read_line read_line_loop after_chunk read_chunk chunk_of split_line drop_cr ends_cr
    full_chunk last_chunk drop_last
split_return = refl

read_line-at_example :
    read_line buffer_size (codes "*2" ++ (b'\n' ∷ 7 ∷ [])) ≡ some (codes "*2", 7 ∷ [])
unfolding drop_cr
read_line-at_example = read_line-at buffer_size (omega arith) (codes "*2") (7 ∷ []) (omega arith)

parse_uint-value_example : parse_uint (codes "18446744073709551615") ≡ some (negsuc 0)
unfolding wrap64 of_word to_word value_from
parse_uint-value_example = parse_uint-value (codes "18446744073709551615") (λ e. cc) (omega arith)

read_command-write_array_example :
    read_command ascii_only
      (write_array (some (codes "xack") ∷ none ∷ some (b'\r' ∷ b'\n' ∷ []) ∷ []) ++ (9 ∷ []))
    ≡ got (record { name = codes "XACK"; args = none ∷ some (b'\r' ∷ b'\n' ∷ []) ∷ [] }) (9 ∷ [])
unfolding to_upper is_ascii bytes_of
read_command-write_array_example =
    read_command-write_array ascii_only (some (codes "xack"))
      (none ∷ some (b'\r' ∷ b'\n' ∷ []) ∷ []) (9 ∷ []) (omega arith, (tt, (omega arith, tt)))
      (omega arith)

read_array-ReadsCommand_example :
    ReadsCommand ascii_only 9
      (read_array ascii_only buffer_size (pos 1) (codes "$3" ++ (crlf ++ codes "get" ++ crlf)))
read_array-ReadsCommand_example =
    read_array-ReadsCommand buffer_size (omega arith) ascii_only (pos 1)
      (codes "$3" ++ (crlf ++ codes "get" ++ crlf))

read_command-Advances_example : Advances 6 (read_command ascii_only (codes "ping" ++ crlf))
read_command-Advances_example = read_command-Advances ascii_only (codes "ping" ++ crlf)
