-- ===== src/Cli/Silence.antt =====
-- cmd/vortexmq-cli/main.go: the client while its requests fit into the buffer of its writer.
use mathlib.Core.Option.{none-ne-some}
use vortexmq.Prelude.{
  ℕ, ◌+◌, ◌≤◌, Option, none, some, some-value, List, [], ◌∷◌, ◌++◌, map, leb, le→leb, if-true,
  length, length-append, Bytes, append_assoc, append-nil, ◌≡◌, refl, sym, ap, ap₂, ◌∙◌, subst,
  arith,
}
use vortexmq.Text.{codes, decimal}
use vortexmq.Resp.{
  crlf, buffer_size, split_line, read_command, read_command_by, read_line, read_line_loop,
  after_chunk, read_chunk, chunk_of, last_chunk, write_bulk_string, write_elements, write_array,
}
use vortexmq.Broker.{Broker}
use vortexmq.Server.{Parts, Session}
use vortexmq.Server.Loop.{Round, finished, serve, after_read, handle_connection}
use vortexmq.Cli.Output.{
  Out, nothing_out, write_out, write_pieces, bulk_pieces, elements_pieces, array_pieces, send,
}
use vortexmq.Cli.Input.{await_command, read_string}
use vortexmq.Cli.{
  Client, Outcome, blocked, Setting, Typed, blank, farewell, words, typed, prompt, greet, request,
  exchange, show_answer, show_first, after_exchange, round, repl, run_args, after_auth,
  authenticate, run,
}

unfoldable joined : List Bytes → Bytes
joined [] = []
joined (piece ∷ pieces) = piece ++ joined pieces

joined-append : (a b : List Bytes) → joined (a ++ b) ≡ joined a ++ joined b
unfolding joined
joined-append [] b = refl
joined-append (piece ∷ a) b =
    ap (piece ++◌) (joined-append a b) ∙ sym (append_assoc piece (joined a) (joined b))

-- The pieces of an array are the bytes that the writer's call appends.
joined-elements_pieces :
    (els : List (Option Bytes)) → joined (elements_pieces els) ≡ write_elements els
unfolding elements_pieces write_elements joined bulk_pieces write_bulk_string
joined-elements_pieces [] = refl
joined-elements_pieces (el ∷ els) =
    joined-append (bulk_pieces el) (elements_pieces els)
    ∙ ap₂ (λ a b. a ++ b) (one el) (joined-elements_pieces els)
  where
    one : (el : Option Bytes) → joined (bulk_pieces el) ≡ write_bulk_string el
    one none = refl
    one (some b) = ap (λ x. b'$' ∷ (decimal (length b) ++ (crlf ++ (b ++ x)))) (append-nil crlf)

joined-array_pieces : (els : List (Option Bytes)) → joined (array_pieces els) ≡ write_array els
unfolding array_pieces write_array joined
joined-array_pieces els =
    ap (λ x. b'*' ∷ (decimal (length els) ++ (crlf ++ x))) (joined-elements_pieces els)

-- What fits into the buffer stays there.
write_pieces-held :
    (pieces : List Bytes) (o : Out)
    → length o.held + length (joined pieces) ≤ buffer_size
    → write_pieces pieces o ≡ record o { held = o.held ++ joined pieces }
unfolding write_pieces joined write_out
write_pieces-held [] o h = ap (λ x. record o { held = x }) (sym (append-nil o.held))
write_pieces-held (piece ∷ pieces) o h =
    ap (write_pieces pieces) (
      if-true (leb (length o.held + length piece) buffer_size) _ _ (
        le→leb (length o.held + length piece) buffer_size
          (omega (arith, h, length-append piece (joined pieces)))))
    ∙ write_pieces-held pieces (record o { held = o.held ++ piece })
        (omega (arith, h, length-append o.held piece, length-append piece (joined pieces)))
    ∙ ap (λ x. record o { held = x }) (append_assoc o.held piece (joined pieces))

-- A request that fits.
abbrev Fits : List Bytes → Type 0
Fits ws = length (write_array (map some ws)) ≤ buffer_size

send-held :
    (ws : List Bytes)
    → Fits ws
    → send ws nothing_out ≡ record { sent = []; held = write_array (map some ws) }
unfolding send
send-held ws h =
    write_pieces-held (array_pieces (map some ws)) nothing_out
      (omega (arith, h, ap length (joined-array_pieces (map some ws))))
    ∙ ap (λ x. record { sent = []; held = x }) (joined-array_pieces (map some ws))

-- The request that the client makes first, if it makes one.
unfoldable pub first_typed : Setting → List Bytes → Option (List Bytes)
first_typed set [] = none
first_typed set (line ∷ lines) = elim (typed set line) [
  | blank ↦ first_typed set lines
  | farewell ↦ none
  | words ws ↦ some ws
]

unfoldable pub first_of_args : Setting → List Bytes → List Bytes → Option (List Bytes)
first_of_args set [] lines = first_typed set lines
first_of_args set (arg ∷ args) lines = some (arg ∷ args)

unfoldable pub first_request : Setting → List Bytes → List Bytes → Bytes → Option (List Bytes)
first_request set args lines [] = first_of_args set args lines
first_request set args lines (b ∷ password) = some (codes "AUTH" ∷ (b ∷ password) ∷ [])

-- A client that is answered nothing.
abbrev unanswered : Out → Bytes → Client
unanswered o text = record { out = o; reads = []; screen = text }

-- Where the client stops, and what it has written until then.
abbrev StopsAt : Outcome → List Bytes → Type 0
StopsAt end ws = (text : Bytes) × (end ≡ blocked (unanswered (send ws nothing_out) text))

repl-StopsAt :
    (set : Setting) (lines : List Bytes) (ws : List Bytes) (text : Bytes)
    → first_typed set lines ≡ some ws
    → StopsAt (repl set lines (unanswered nothing_out text)) ws
unfolding first_typed repl prompt round exchange show_answer read_string request after_exchange
repl-StopsAt set [] ws text e = absurd (none-ne-some ws e)
repl-StopsAt set (line ∷ lines) ws text e =
    on_line (typed set line) (λ t h. repl-StopsAt set lines ws t h) e
  where
    on_line :
        (x : Typed set)
        → ((t : Bytes)
            → first_typed set lines ≡ some ws
            → StopsAt (repl set lines (unanswered nothing_out t)) ws)
        → elim x [ blank ↦ first_typed set lines | farewell ↦ none | words vs ↦ some vs ] ≡ some ws
        → StopsAt (round set (repl set lines) x (prompt set (unanswered nothing_out text))) ws
    on_line blank rest h = rest _ h
    on_line farewell rest h = absurd (none-ne-some ws h)
    on_line (words vs) rest h =
        subst
          (λ x.
            StopsAt
              (round set (repl set lines) (words vs) (prompt set (unanswered nothing_out text))) x)
          (some-value vs ws h) (_, refl)

args-StopsAt :
    (set : Setting) (args lines : List Bytes) (ws : List Bytes)
    → first_of_args set args lines ≡ some ws
    → StopsAt (run_args set args lines (unanswered nothing_out [])) ws
unfolding first_of_args run_args show_first read_string request greet
args-StopsAt set [] lines ws e = repl-StopsAt set lines ws _ e
args-StopsAt set (arg ∷ args) lines ws e =
    subst (λ x. StopsAt (run_args set (arg ∷ args) lines (unanswered nothing_out [])) x)
      (some-value (arg ∷ args) ws e) (_, refl)

authenticate-StopsAt :
    (set : Setting) (password : Bytes) (args lines : List Bytes) (ws : List Bytes)
    → first_request set args lines password ≡ some ws
    → StopsAt (authenticate set password args lines (unanswered nothing_out [])) ws
unfolding first_request authenticate after_auth await_command request
authenticate-StopsAt set [] args lines ws e = args-StopsAt set args lines ws e
authenticate-StopsAt set (b ∷ password) args lines ws e =
    subst (λ x. StopsAt (authenticate set (b ∷ password) args lines (unanswered nothing_out [])) x)
      (some-value (codes "AUTH" ∷ (b ∷ password) ∷ []) ws e) (_, refl)

-- A server that is sent nothing writes nothing and does nothing.
handle_connection-nothing :
    {W : Type 0} (parts : Parts W) (key : Bytes) (rounds : ℕ → Round W) (b : Broker W)
    → (s : Session W) × (handle_connection parts key rounds [] b ≡ finished s)
      × (s.output ≡ [])
      × (s.broker ≡ b)
unfolding handle_connection serve after_read read_command read_command_by read_line read_line_loop
    after_chunk read_chunk chunk_of last_chunk split_line
handle_connection-nothing parts key rounds b = (_, refl, refl, refl)

-- The first request of a session, AUTH where there is a password, else the command of the arguments, else
-- the first line that is neither blank nor a farewell: if it takes 64 KB at most, the client has sent
-- nothing and waits, with the request whole in its writer's buffer, while the server, on what it
-- has been sent, has written nothing and changed nothing.
pub run-Unsent :
    {W : Type 0} (parts : Parts W) (key : Bytes) (rounds : ℕ → Round W) (b : Broker W)
    (set : Setting) (args lines : List Bytes) (ws : List Bytes)
    → first_request set args lines set.password ≡ some ws
    → Fits ws
    → (c : Client) × (s : Session W) × (run set args lines [] ≡ blocked c)
      × (c.out.held ≡ write_array (map some ws))
      × (handle_connection parts key rounds c.out.sent b ≡ finished s)
      × (s.output ≡ [])
      × (s.broker ≡ b)
unfolding run
run-Unsent parts key rounds b set args lines ws e fit =
    let (text, h) = authenticate-StopsAt set set.password args lines ws e in
    let (s, ends, mute, same) = handle_connection-nothing parts key rounds b in
    (
      unanswered (send ws nothing_out) text,
      s,
      h,
      ap (λ (o : Out). o.held) (send-held ws fit),
      ap (λ (o : Out). handle_connection parts key rounds o.sent b) (send-held ws fit) ∙ ends,
      mute,
      same,
    )
