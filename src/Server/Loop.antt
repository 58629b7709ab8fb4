-- ===== src/Server/Loop.antt =====
-- internal/network/server.go, handleConnection: the switch, the flushes, and the loop over a client's
-- commands.
pub mod Termination
pub mod Replies
pub mod Access
pub mod Flushes
use mathlib.Core.Option
use vortexmq.Prelude.{
  ℕ, zero, suc, Bool, true, false, not, ◌&&◌, List, [], ◌∷◌, ◌++◌, ite, if◌then◌else◌, bytes_dec,
  Bytes, length,
}
use vortexmq.Text.{codes}
use vortexmq.Broker.{Broker}
use vortexmq.Resp.{Command, Read, failed, got, ok, write_error, read_command}
use vortexmq.Server.{
  Session, Env, Parts, Done, next, skip, leave, asleep, crashed, Verb, ping, echo, auth, command,
  info, lpush, rpush, lpop, rpop, bpop, llen, xadd, xgroup, xreadgroup, xack, vmq_publish,
  vmq_consume, vmq_ack, vmq_nack, vmq_replay, vmq_publish_batch, vmq_broadcast, vmq_stats, quit,
  unknown, verb_of, write, flush,
}
use vortexmq.Server.Lists.{
  do_ping, do_echo, do_auth, do_command, do_info, do_lpush, do_rpush, do_lpop, do_rpop, do_bpop,
  do_llen,
}
use vortexmq.Server.Streams.{do_xadd, do_xgroup, do_xreadgroup, do_xack}
use vortexmq.Server.Native.{
  do_publish, do_consume, do_ack, do_nack, do_replay, do_publish_batch, do_broadcast, do_stats,
}

-- A word of a command's name.
unfoldable pub equal : Bytes → Bytes → Bool
equal a b = ite (bytes_dec a b) true false

-- What a round of the loop takes from outside: what happens to the broker before its command, which is what
-- the other clients and the background loops do to it, and what the read of the command does to payloads
-- that are words of the inline command before it; what the command takes, and whether no input is left in the reader's buffer.
pub record Round (W : Type 0) : Type 0 where
  pub between : Broker W → Broker W
  pub env : Env W
  pub idle : Bool

-- How a session stands when its loop is left.
pub data End (W : Type 0) : Type 0 where
  finished : Session W → End W
  waiting : Session W → End W
  died : End W
  unfinished : End W

module _ {W : Type 0} where
  -- The session as a command finds it.
  unfoldable pub found : (Broker W → Broker W) → Session W → Session W
  found between s = record s { broker = between s.broker }

  -- `default`
  unfoldable pub do_unknown : Bytes → Session W → Done W
  do_unknown name s =
      next (write (write_error (codes "unknown command '" ++ (name ++ codes "'"))) s)

  -- `if reader.Buffered() == 0 { _ = writer.Flush() }`; a `return` flushes as well.
  unfoldable pub flush_if : Bool → Session W → Session W
  flush_if idle s = if idle then flush s else s

  unfoldable pub settle : Bool → Done W → Done W
  settle idle (next s) = next (flush_if idle s)
  settle idle (skip s) = skip s
  settle idle (leave s) = leave (flush s)
  settle idle (asleep s) = asleep s
  settle idle crashed = crashed

  unfoldable pub after : (Session W → End W) → Done W → End W
  after continue_with (next s) = continue_with s
  after continue_with (skip s) = continue_with s
  after continue_with (leave s) = finished s
  after continue_with (asleep s) = waiting s
  after continue_with crashed = died

  -- What follows ReadCommand; its error ends the loop.
  unfoldable pub after_read : Session W → (Command → Bytes → End W) → Read Command → End W
  after_read s continue_with (failed e) = finished (flush s)
  after_read s continue_with (got c rest) = continue_with c rest

module _ {W : Type 0} (parts : Parts W) (password : Bytes) where
  -- The switch.
  unfoldable pub dispatch : Env W → Verb → Command → Session W → Done W
  dispatch env ping c s = do_ping c.args s
  dispatch env echo c s = do_echo c.args s
  dispatch env auth c s = do_auth password c.args s
  dispatch env command c s = do_command s
  dispatch env info c s = do_info env s
  dispatch env lpush c s = do_lpush parts env c.args s
  dispatch env rpush c s = do_rpush parts env c.args s
  dispatch env lpop c s = do_lpop env c.args s
  dispatch env rpop c s = do_rpop env c.args s
  dispatch env bpop c s = do_bpop env c.args s
  dispatch env llen c s = do_llen c.args s
  dispatch env xadd c s = do_xadd parts env c.args s
  dispatch env xgroup c s = do_xgroup parts env c.args s
  dispatch env xreadgroup c s = do_xreadgroup parts env c.args s
  dispatch env xack c s = do_xack parts env c.args s
  dispatch env vmq_publish c s = do_publish parts env c.args s
  dispatch env vmq_consume c s = do_consume parts env c.args s
  dispatch env vmq_ack c s = do_ack parts env c.args s
  dispatch env vmq_nack c s = do_nack parts env c.args s
  dispatch env vmq_replay c s = do_replay parts env c.args s
  dispatch env vmq_publish_batch c s = do_publish_batch parts env c.args s
  dispatch env vmq_broadcast c s = do_broadcast parts env c.args s
  dispatch env vmq_stats c s = do_stats parts env s
  dispatch env quit c s = leave (write ok s)
  dispatch env unknown c s = do_unknown c.name s

  -- `!authenticated && cmd.Name != "AUTH" && cmd.Name != "QUIT"`
  unfoldable pub is_refused : Command → Session W → Bool
  is_refused c s =
      not s.authenticated
      && (not (equal c.name (codes "AUTH")) && not (equal c.name (codes "QUIT")))

  -- One command; `idle` says that no more input is buffered.
  unfoldable pub handle : Env W → Bool → Command → Session W → Done W
  handle env idle c s =
      if is_refused c s
      then skip (flush_if idle (write (write_error (codes "NOAUTH Authentication required.")) s))
      else settle idle (dispatch env (verb_of c.name) c s)

  -- The loop, over the bytes that the client sends until it closes.
  unfoldable pub serve : (ℕ → Round W) → ℕ → ℕ → Bytes → Session W → End W
  serve rounds zero i bs s = unfinished
  serve rounds (suc fuel) i bs s =
      after_read s
        (λ c rest.
          after (serve rounds fuel (suc i) rest)
            (handle (rounds i).env (rounds i).idle c (found (rounds i).between s)))
        (read_command parts.unicode bs)

  -- A connection, from its first byte.
  unfoldable pub handle_connection : (ℕ → Round W) → Bytes → Broker W → End W
  handle_connection rounds bs b =
      serve rounds (suc (length bs)) 0 bs
        (record { broker = b; authenticated = equal password []; output = []; flushed = 0 })
