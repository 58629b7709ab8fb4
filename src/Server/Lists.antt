-- ===== src/Server/Lists.antt =====
-- internal/network/server.go: PING, ECHO, AUTH, COMMAND, INFO, and the commands on lists.
pub mod Order
use mathlib.Core.Option
use vortexmq.Prelude.{
  ℕ, ◌+◌, Bool, true, false, Option, none, some, List, [], ◌∷◌, ◌++◌, ite, bytes_dec, Bytes, lookup,
}
use vortexmq.Int.{ℤ, pos, ◌*ℤ◌, wrap64, of_word}
use vortexmq.Text.{codes, decimal, decimal_ℤ, atoi}
use vortexmq.Message.{Message, Entropy}
use vortexmq.Topic
use vortexmq.Topic.{Topic}
use vortexmq.Broker
use vortexmq.Broker.{Broker, Taken, sleeping, returned, stopped}
use vortexmq.Resp.{
  bytes_of, crlf, pong, ok, null_bulk, empty_array, write_error, write_integer, write_bulk_string,
  write_array,
}
use vortexmq.Server.{
  Session, Env, Parts, Done, next, skip, leave, asleep, crashed, write, with_broker,
}

abbrev info_line : Bytes → Bytes → Bytes
info_line name value = name ++ (value ++ crlf)

unfoldable pub info_text : Broker.BrokerStats → Bytes
info_text st =
    codes "# VortexMQ Telemetry"
    ++ (crlf
        ++ (info_line (codes "version:") (codes "1.0.0")
            ++ (info_line (codes "uptime_seconds:") (decimal_ℤ st.uptime_seconds)
                ++ (info_line (codes "total_topics:") (decimal st.total_topics)
                    ++ (info_line (codes "total_published:") (decimal st.total_published)
                        ++ (info_line (codes "total_consumed:") (decimal st.total_consumed)
                            ++ (info_line (codes "total_acked:") (decimal st.total_acked)
                                ++ (info_line (codes "total_nacked:") (decimal st.total_nacked)
                                    ++ info_line (codes "total_dlq:") (decimal st.total_dlq)))))))))

-- `cmd.Args[len(cmd.Args)-1]`
unfoldable pub last_arg : Option Bytes → List (Option Bytes) → Option Bytes
last_arg arg [] = arg
last_arg arg (arg' ∷ args) = last_arg arg' args

module _ {W : Type 0} where
  unfoldable pub do_ping : List (Option Bytes) → Session W → Done W
  do_ping [] s = next (write pong s)
  do_ping (arg ∷ args) s = next (write (write_bulk_string arg) s)

  unfoldable pub do_echo : List (Option Bytes) → Session W → Done W
  do_echo [] s = next (write (write_error (codes "wrong number of arguments for 'echo'")) s)
  do_echo (arg ∷ args) s = next (write (write_bulk_string arg) s)

  -- The test of a password, where the server has one.
  unfoldable pub check_password : Bytes → Bytes → Session W → Done W
  check_password [] given s = next (write ok (record s { authenticated = true }))
  check_password (c ∷ password) given s =
      ite (bytes_dec given (c ∷ password)) (next (write ok (record s { authenticated = true })))
        (next (write (write_error (codes "ERR invalid password")) s))

  unfoldable pub do_auth : Bytes → List (Option Bytes) → Session W → Done W
  do_auth password [] s =
      next (write (write_error (codes "wrong number of arguments for 'auth'")) s)
  do_auth password (arg ∷ []) s = check_password password (bytes_of arg) s
  do_auth password (arg ∷ other ∷ args) s =
      next (write (write_error (codes "wrong number of arguments for 'auth'")) s)

  unfoldable pub do_command : Session W → Done W
  do_command s = next (write empty_array s)

  unfoldable pub do_info : Env W → Session W → Done W
  do_info env s =
      next (write (write_bulk_string (some (info_text (Broker.stats env.uptime s.broker)))) s)

  -- `int64(t.Stats().Length)` of a topic that is looked up; `missing` is what happens without it.
  unfoldable pub reply_length : Done W → Option Topic → Session W → Done W
  reply_length missing none s = missing
  reply_length missing (some t) s = next (write (write_integer (of_word (Topic.stats t).length)) s)

  -- The loop of LPUSH and RPUSH; an error of the broker is passed over.
  unfoldable pub push_loop :
      (Bytes → Option Bytes → Entropy → Broker W → Option (Broker W × Option Message))
      → Env W
      → Bytes
      → ℕ
      → List (Option Bytes)
      → Broker W
      → Option (Broker W)
  push_loop publish env name i [] b = some b
  push_loop publish env name i (v ∷ vs) b = elim (publish name v (env.entropy i) b) [
    | none ↦ none
    | some (b', m) ↦ push_loop publish env name (i + 1) vs b'
  ]

  -- The topic is a nil pointer where it is not there.
  unfoldable pub reply_pushed : Bytes → Option (Broker W) → Session W → Done W
  reply_pushed name none s = crashed
  reply_pushed name (some b) s = reply_length crashed (lookup name b.topics) (with_broker b s)

  module _ (parts : Parts W) (env : Env W) where
    unfoldable pub do_lpush : List (Option Bytes) → Session W → Done W
    do_lpush [] s = next (write (write_error (codes "wrong number of arguments for 'lpush'")) s)
    do_lpush (name ∷ []) s =
        next (write (write_error (codes "wrong number of arguments for 'lpush'")) s)
    do_lpush (name ∷ v ∷ vs) s =
        reply_pushed (bytes_of name)
          (push_loop (Broker.publish_front parts.wal) env (bytes_of name) 0 (v ∷ vs) s.broker) s

    unfoldable pub do_rpush : List (Option Bytes) → Session W → Done W
    do_rpush [] s = next (write (write_error (codes "wrong number of arguments for 'rpush'")) s)
    do_rpush (name ∷ []) s =
        next (write (write_error (codes "wrong number of arguments for 'rpush'")) s)
    do_rpush (name ∷ v ∷ vs) s =
        reply_pushed (bytes_of name)
          (push_loop (Broker.publish parts.wal) env (bytes_of name) 0 (v ∷ vs) s.broker) s

  -- The answer of LPOP, RPOP and VMQ.CONSUME; `missing` is what they write when there is no message.
  unfoldable pub reply_payload : Bytes → Taken W → Session W → Done W
  reply_payload missing (sleeping b) s = asleep (with_broker b s)
  reply_payload missing (returned b none) s = next (write missing (with_broker b s))
  reply_payload missing (returned b (some m)) s =
      next (write (write_bulk_string m.payload) (with_broker b s))
  reply_payload missing stopped s = crashed

  unfoldable pub reply_pair : Bytes → Taken W → Session W → Done W
  reply_pair name (sleeping b) s = asleep (with_broker b s)
  reply_pair name (returned b none) s = next (write null_bulk (with_broker b s))
  reply_pair name (returned b (some m)) s =
      next (write (write_array (some name ∷ m.payload ∷ [])) (with_broker b s))
  reply_pair name stopped s = crashed

  module _ (env : Env W) where
    unfoldable pub consume_for : Bytes → ℤ → Session W → Taken W
    consume_for name timeout s =
        Broker.consume name timeout s.broker env.wakes (env.others s.broker)

    unfoldable pub do_lpop : List (Option Bytes) → Session W → Done W
    do_lpop [] s = next (write (write_error (codes "wrong number of arguments for 'lpop'")) s)
    do_lpop (name ∷ args) s =
        reply_payload (write_bulk_string none) (consume_for (bytes_of name) (pos 0) s) s

    unfoldable pub do_rpop : List (Option Bytes) → Session W → Done W
    do_rpop [] s = next (write (write_error (codes "wrong number of arguments for 'rpop'")) s)
    do_rpop (name ∷ args) s =
        reply_payload (write_bulk_string none) (consume_for (bytes_of name) (pos 0) s) s

    unfoldable pub do_bpop : List (Option Bytes) → Session W → Done W
    do_bpop [] s = next (write (write_error (codes "wrong number of arguments for blocking pop")) s)
    do_bpop (name ∷ []) s =
        next (write (write_error (codes "wrong number of arguments for blocking pop")) s)
    do_bpop (name ∷ arg ∷ args) s =
        let seconds = (atoi (bytes_of (last_arg arg args))).0 in
        reply_pair (bytes_of name)
          (consume_for (bytes_of name) (wrap64 (seconds *ℤ pos 1000000000)) s) s

  unfoldable pub do_llen : List (Option Bytes) → Session W → Done W
  do_llen [] s = next (write (write_error (codes "wrong number of arguments for 'llen'")) s)
  do_llen (name ∷ []) s =
      reply_length (next (write (write_integer (pos 0)) s)) (lookup (bytes_of name) s.broker.topics)
        s
  do_llen (name ∷ other ∷ args) s =
      next (write (write_error (codes "wrong number of arguments for 'llen'")) s)
