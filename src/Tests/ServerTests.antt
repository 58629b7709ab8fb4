-- ===== src/Tests/ServerTests.antt =====
-- internal/network/server.go with short inputs, on a broker with one topic whose ring is full.
use vortexmq.Prelude.{
  ℕ, true, some, List, [], ◌∷◌, ◌++◌, ◌≡◌, ◌≢◌, ◌≤◌, inr, false, length, refl, ap, ◌∙◌, arith,
  Bytes, Option, lookup, bytes_dec,
}
use vortexmq.Int.{pos, of_word}
use vortexmq.Text.{codes}
use vortexmq.Deque.{room_front}
use vortexmq.Ring.Refine.{Refines}
use vortexmq.Topic.{Topic}
use vortexmq.Broker
use vortexmq.Broker.{Broker}
use vortexmq.Resp.{
  crlf, write_error, write_integer, write_bulk_string, split_line, drop_cr, ends_cr, full_chunk,
  last_chunk, chunk_of, read_chunk, after_chunk, read_line_loop, read_line, is_ascii, join_word,
  ascii_fields, to_upper, fields, inline_command, read_first, read_command_by, read_command,
  bytes_of,
}
use vortexmq.Resp.Replies.{IsReply, is_text}
use vortexmq.Server.{Session, Env, Parts, next, verb_of, write}
use vortexmq.Server.Lists.{do_lpush, do_rpop}
use vortexmq.Server.Lists.Order.{do_lpush-do_rpop}
use vortexmq.Server.Answers.{Answers}
use vortexmq.Server.Connections
use vortexmq.Server.Connections.Limit.{IsReachable-le, admit-stop}
use vortexmq.Server.Loop.{Round, do_unknown, handle, handle_connection}
use vortexmq.Server.Loop.Replies.{handle-IsReply, do_unknown-two_replies}
use vortexmq.Server.Loop.Access.{
  GivesPassword, next_commands, commands, EndsUnchanged, handle_connection-EndsUnchanged,
}
use vortexmq.Server.Loop.Flushes.{continues, Unsent, handle-Unsent}
use vortexmq.Tests.Samples.{letter, other}
use vortexmq.Tests.BrokerTests.{full_queue, full_ring-Refines, orders, broker, counting, noon}

abbrev pub parts : Parts ℕ
parts = record {
  wal = counting;
  unicode = record { upper = λ bs. bs; fields = λ bs. [] };
  json_map = λ m. [];
  json_stats = λ st. codes "stats";
}

abbrev env : Env ℕ
env = record {
  entropy = λ i. noon;
  now = pos 0;
  failed_at = pos 0;
  uptime = pos 1;
  wakes = [];
  others = λ b. b;
  error_text = codes "queue full or closed";
}

abbrev session : Session ℕ
session = record {
  broker = broker;
  authenticated = true;
  output = codes "+OK" ++ crlf;
  flushed = 5;
}

abbrev pub rounds : ℕ → Round ℕ
rounds i = record { between = λ b. b; env = env; idle = true }

handle-IsReply_example : Answers IsReply session (
    handle parts [] env true
      (record { name = codes "VMQ.PUBLISH"; args = some (1 ∷ []) ∷ some (codes "v") ∷ [] })
      session)
unfolding is_text
handle-IsReply_example =
    handle-IsReply parts [] env true
      (record { name = codes "VMQ.PUBLISH"; args = some (1 ∷ []) ∷ some (codes "v") ∷ [] }) session
      refl refl

do_unknown-two_replies_example :
    IsReply (write_error (codes "unknown command 'GET"))
    × IsReply (codes "+PONG'" ++ crlf)
    × (do_unknown (codes "GET" ++ (crlf ++ codes "+PONG")) session
        ≡ next (
            write (write_error (codes "unknown command 'GET") ++ (codes "+PONG'" ++ crlf)) session))
unfolding is_text
do_unknown-two_replies_example =
    do_unknown-two_replies (codes "GET") (codes "PONG") b'+' session refl refl refl

first_bytes : List (Option Bytes) → Bytes
first_bytes [] = []
first_bytes (arg ∷ args) = bytes_of arg

wrong_password :
    ¬ GivesPassword
      (codes "secret")
      (record { name = codes "AUTH"; args = some (codes "guess") ∷ [] })
unfolding first_bytes bytes_of
wrong_password g = differ (ap first_bytes g.alone ∙ g.right)
  where
    differ : codes "guess" ≢ codes "secret"
    differ e = cc

first_byte : Bytes → ℕ
first_byte [] = 0
first_byte (c ∷ bs) = c

not_auth : codes "RPOP" ≢ codes "AUTH"
unfolding first_byte
not_auth e = differ (ap first_byte e)
  where
    differ : ◌≢◌ {A = ℕ} b'R' b'A'
    differ = omega arith

handle_connection-EndsUnchanged_example : EndsUnchanged rounds broker (
    handle_connection parts
      (codes "secret")
      rounds
      (codes "rpop x" ++ (crlf ++ (codes "AUTH guess" ++ crlf)))
      broker)
unfolding commands next_commands read_command read_command_by read_line read_line_loop after_chunk
    read_chunk chunk_of split_line drop_cr ends_cr full_chunk last_chunk read_first fields is_ascii
    ascii_fields join_word inline_command to_upper
handle_connection-EndsUnchanged_example =
    handle_connection-EndsUnchanged parts (codes "secret") (λ e. cc) rounds
      (codes "rpop x" ++ (crlf ++ (codes "AUTH guess" ++ crlf))) broker
      (λ g. not_auth g.names, (wrong_password, tt))

handle-Unsent_example :
    Unsent session (handle parts [] env true (record { name = codes "XACK"; args = [] }) session)
unfolding continues verb_of lookup bytes_dec
handle-Unsent_example = handle-Unsent parts [] env (codes "XACK") session refl refl

do_lpush-do_rpop_example :
    (s' : Session ℕ) × (s'' : Session ℕ) × (t' : Topic) × (do_lpush parts env
        (some (1 ∷ []) ∷ some (codes "v") ∷ [])
        session
      ≡ next s')
    × (do_rpop env (some (1 ∷ []) ∷ []) s' ≡ next s'')
    × (s''.output
        ≡ (session.output ++ write_integer (of_word 3)) ++ write_bulk_string (some (codes "v")))
    × (lookup (1 ∷ []) s''.broker.topics ≡ some t')
    × Refines t'.ring (record full_queue { items = letter ∷ other ∷ []; capacity = 4 })
unfolding lookup bytes_of room_front Broker.write_wal
do_lpush-do_rpop_example =
    do_lpush-do_rpop parts env env (λ b. refl) (some (1 ∷ [])) (some (codes "v")) session orders
      refl full_queue full_ring-Refines refl refl refl

abbrev one_client : Connections.ServerState
one_client = record {
  conns = (7, false) ∷ [];
  closed = false;
  handlers = 1;
  loop = Connections.holding 8;
}

one_client-IsReachable : Connections.IsReachable 1 one_client
unfolding Connections.admit
one_client-IsReachable =
    Connections.then_step
      (Connections.then_step
        (Connections.then_step Connections.at_start (Connections.accepts 7 _ refl))
        (Connections.admits 7 _ refl))
      (Connections.accepts 8 _ refl)

IsReachable-le_example : length one_client.conns ≤ 1
IsReachable-le_example = IsReachable-le 1 (omega arith) one_client one_client-IsReachable

admit-stop_example :
    ((Connections.admit 2 8 (Connections.stop one_client)).closed ≡ true)
    × ((Connections.admit 2 8 (Connections.stop one_client)).conns
        ≡ (8, false) ∷ (Connections.stop one_client).conns)
    × ((Connections.admit 2 8 (Connections.stop one_client)).handlers ≡ 2)
admit-stop_example = admit-stop 8 one_client refl refl 2 (inr (omega arith))
