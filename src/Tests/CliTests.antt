-- ===== src/Tests/CliTests.antt =====
-- cmd/vortexmq-cli/main.go: a typed command, and replies that come whole and cut.
use vortexmq.Prelude.{
  ℕ, bytes_dec, true, some, [], ◌∷◌, ◌++◌, map, replicate, ◌≡◌, ◌≢◌, refl, arith,
}
use vortexmq.Text.{codes, decimal}
use vortexmq.Resp.{
  crlf, write_bulk_string, write_array, write_elements, fields, is_ascii, ascii_fields, join_word,
}
use vortexmq.Server.{Session}
use vortexmq.Server.Loop.{finished, handle_connection}
use vortexmq.Cli.Output.{nothing_out}
use vortexmq.Cli.Input.{read_string}
use vortexmq.Cli.{
  Client, ended, blocked, print, Setting, run, show_answer, typed, typed_trimmed, trim_space,
  drop_spaces, is_word,
}
use vortexmq.Cli.Silence.{run-Unsent, first_request, first_of_args, first_typed}
use vortexmq.Cli.Display.{a_bulk, show_answer-Displays, show_answer-cut}
use vortexmq.Tests.BrokerTests.{broker}
use vortexmq.Tests.ServerTests.{parts, rounds}

abbrev setting : Setting
setting = record {
  address = codes "127.0.0.1:8379";
  port = 8379;
  password = [];
  uni = parts.unicode;
  trim = λ bs. bs;
  error = codes "EOF";
}

run-Unsent_example :
    (c : Client) × (s : Session ℕ) × (run setting [] (codes "  " ∷ codes " LPUSH q v " ∷ []) []
      ≡ blocked c)
    × (c.out.held ≡ write_array (map some (codes "LPUSH" ∷ codes "q" ∷ codes "v" ∷ [])))
    × (handle_connection parts [] rounds c.out.sent broker ≡ finished s)
    × (s.output ≡ [])
    × (s.broker ≡ broker)
unfolding first_request first_of_args first_typed typed typed_trimmed trim_space drop_spaces is_word
    fields is_ascii ascii_fields join_word bytes_dec write_array decimal write_elements
    write_bulk_string
run-Unsent_example =
    run-Unsent parts [] rounds broker setting [] (codes "  " ∷ codes " LPUSH q v " ∷ [])
      (codes "LPUSH" ∷ codes "q" ∷ codes "v" ∷ []) refl (omega arith)

abbrev client : Client
client = record { out = nothing_out; reads = []; screen = codes "vortexmq:8379> " }

show_answer-Displays_example :
    show_answer
      (codes "EOF")
      client
      (read_string [] (some (write_bulk_string (some (codes "hi"))) ∷ []))
    ≡ (ended (print (codes "hi" ++ (b'\n' ∷ [])) client), true)
show_answer-Displays_example =
    show_answer-Displays (codes "EOF") [] _ _ client (a_bulk (codes "hi") (omega arith))

not_nothing : codes "he" ≢ []
not_nothing e = cc

show_answer-cut_example :
    show_answer (codes "EOF") client (
      read_string []
        (some (b'$' ∷ (decimal 5 ++ (crlf ++ codes "he"))) ∷ some (codes "llo" ++ crlf) ∷ []))
    ≡ (
      ended (
          print
            (codes "he" ++ (replicate 3 0 ++ (b'\n' ∷ [])))
            (record client { reads = some (codes "llo" ++ crlf) ∷ [] })),
      true,
    )
show_answer-cut_example =
    show_answer-cut (codes "EOF") [] (codes "he") (codes "llo") client not_nothing (omega arith)
