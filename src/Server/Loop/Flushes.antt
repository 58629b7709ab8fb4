-- ===== src/Server/Loop/Flushes.antt =====
-- internal/network/server.go: which replies handleConnection sends before it reads the next command.
use vortexmq.Prelude.{Bool, true, false, [], if-false, Bytes, ◌≡◌, refl, sym, subst}
use vortexmq.Resp.{Command, write_error}
use vortexmq.Server.{
  Session, Env, Parts, Done, skip, Verb, ping, echo, auth, command, info, lpush, rpush, lpop, rpop,
  bpop, llen, xadd, xgroup, xreadgroup, xack, vmq_publish, vmq_consume, vmq_ack, vmq_nack,
  vmq_replay, vmq_publish_batch, vmq_broadcast, vmq_stats, quit, unknown, verb_of, write,
}
use vortexmq.Server.Streams.{do_xadd, do_xreadgroup, do_xack, find, read_group, is_empty_text}
use vortexmq.Server.Native.{
  do_publish, do_consume, do_ack, do_nack, do_replay, refuse_ack, refuse_nack, refuse_replay,
}
use vortexmq.Server.Loop.{settle, dispatch, is_refused, handle}

-- The cases of the switch that end with `continue` when there are too few arguments.
unfoldable pub continues : Verb → Bool
continues xadd = true
continues xreadgroup = true
continues xack = true
continues vmq_publish = true
continues vmq_consume = true
continues vmq_ack = true
continues vmq_nack = true
continues vmq_replay = true
continues _ = false

module _ {W : Type 0} where
  -- An error is written, and nothing is sent.
  abbrev pub Unsent : Session W → Done W → Type 0
  Unsent s d = (msg : Bytes) × (d ≡ skip (write (write_error msg) s))

  module _ (parts : Parts W) (password : Bytes) (env : Env W) (name : Bytes) (s : Session W) where
    bare : Command
    bare = record { name = name; args = [] }

    dispatch-Unsent :
        (v : Verb)
        → continues v ≡ true
        → Unsent s (settle true (dispatch parts password env v bare s))
    unfolding continues settle dispatch bare do_xadd do_xreadgroup do_xack find read_group
        is_empty_text do_publish do_consume do_ack do_nack do_replay refuse_ack refuse_nack
        refuse_replay
    dispatch-Unsent ping h = cc
    dispatch-Unsent echo h = cc
    dispatch-Unsent auth h = cc
    dispatch-Unsent command h = cc
    dispatch-Unsent info h = cc
    dispatch-Unsent lpush h = cc
    dispatch-Unsent rpush h = cc
    dispatch-Unsent lpop h = cc
    dispatch-Unsent rpop h = cc
    dispatch-Unsent bpop h = cc
    dispatch-Unsent llen h = cc
    dispatch-Unsent xadd h = (_, refl)
    dispatch-Unsent xgroup h = cc
    dispatch-Unsent xreadgroup h = (_, refl)
    dispatch-Unsent xack h = (_, refl)
    dispatch-Unsent vmq_publish h = (_, refl)
    dispatch-Unsent vmq_consume h = (_, refl)
    dispatch-Unsent vmq_ack h = (_, refl)
    dispatch-Unsent vmq_nack h = (_, refl)
    dispatch-Unsent vmq_replay h = (_, refl)
    dispatch-Unsent vmq_publish_batch h = cc
    dispatch-Unsent vmq_broadcast h = cc
    dispatch-Unsent vmq_stats h = cc
    dispatch-Unsent quit h = cc
    dispatch-Unsent unknown h = cc

    -- XADD, XREADGROUP, XACK, VMQ.PUBLISH, VMQ.CONSUME, VMQ.ACK, VMQ.NACK and VMQ.REPLAY with no argument,
    -- from a client that is authenticated, write an error and leave the switch before the Flush,
    -- although no more input is buffered: the loop reads on with the reply in the buffer, from which
    -- bufio.Writer sends by itself only what it has no room for.
    pub handle-Unsent :
        s.authenticated ≡ true
        → continues (verb_of name) ≡ true
        → Unsent s (handle parts password env true (record { name = name; args = [] }) s)
    unfolding handle is_refused bare
    handle-Unsent a h =
        subst (Unsent s) (sym (if-false _ _ _ open_door)) (dispatch-Unsent (verb_of name) h)
      where
        open_door : is_refused parts password (record { name = name; args = [] }) s ≡ false
        open_door = rw a refl
