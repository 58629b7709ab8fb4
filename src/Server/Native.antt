-- ===== src/Server/Native.antt =====
-- internal/network/server.go: the commands that begin with VMQ.
use vortexmq.Prelude.{
  ℕ, suc, Bool, true, false, ◌&&◌, Option, none, some, List, [], ◌∷◌, if◌then◌else◌, Bytes,
}
use vortexmq.Int.{ℤ, pos, ◌*ℤ◌, wrap64, ltb_ℤ}
use vortexmq.Text.{codes, atoi}
use vortexmq.Message.{Message, Entropy}
use vortexmq.Broker
use vortexmq.Broker.{Broker}
use vortexmq.Resp.{bytes_of, ok, null_bulk, write_error, write_integer, write_bulk_string}
use vortexmq.Server.{Session, Env, Parts, Done, next, skip, crashed, write, with_broker}
use vortexmq.Server.Lists.{consume_for, reply_payload}
use vortexmq.Server.Streams.{reply_id}

-- A number of milliseconds that was read with no error and passes a test, as a duration; else 0.
unfoldable pub millis : (ℤ → Bool) → ℤ × Bool → ℤ
millis test (ms, fine) = if fine && test ms then wrap64 (ms *ℤ pos 1000000) else pos 0

unfoldable pub delay_of : List (Option Bytes) → ℤ
delay_of [] = pos 0
delay_of (arg ∷ args) = millis (λ ms. ltb_ℤ (pos 0) ms) (atoi (bytes_of arg))

unfoldable pub timeout_of : List (Option Bytes) → ℤ
timeout_of [] = pos 0
timeout_of (arg ∷ args) = millis (λ ms. true) (atoi (bytes_of arg))

-- The reason of VMQ.NACK.
unfoldable pub reason_of : List (Option Bytes) → Bytes
reason_of [] = codes "processing failed"
reason_of (arg ∷ args) = bytes_of arg

module _ {W : Type 0} where
  -- An answer of OK, or an error that says what was not found.
  unfoldable pub reply_ok : Bytes → Broker W × Bool → Session W → Done W
  reply_ok missing (b, true) s = next (write ok (with_broker b s))
  reply_ok missing (b, false) s = next (write (write_error missing) (with_broker b s))

  unfoldable pub reply_count : Option (Broker W × ℕ) → Session W → Done W
  reply_count none s = crashed
  reply_count (some (b, n)) s = next (write (write_integer (pos n)) (with_broker b s))

  unfoldable pub refuse_ack : Session W → Done W
  refuse_ack s = skip (write (write_error (codes "usage: VMQ.ACK <topic> <group> <msg_id>")) s)

  unfoldable pub reply_nacked : Option (Broker W × Bool) → Session W → Done W
  reply_nacked none s = crashed
  reply_nacked (some r) s = reply_ok (codes "NACK rejected: message not found in pending list") r s

  unfoldable pub refuse_nack : Session W → Done W
  refuse_nack s =
      skip (write (write_error (codes "usage: VMQ.NACK <topic> <group> <msg_id> [reason]")) s)

  unfoldable pub reply_replayed : Broker W × Option Message → Session W → Done W
  reply_replayed (b, some m) s = next (write ok (with_broker b s))
  reply_replayed (b, none) s =
      next (write (write_error (codes "message not found in dead letter queue")) (with_broker b s))

  unfoldable pub refuse_replay : Session W → Done W
  refuse_replay s = skip (write (write_error (codes "usage: VMQ.REPLAY <topic> <msg_id>")) s)

  unfoldable pub refuse_batch : Session W → Done W
  refuse_batch s =
      next
        (write (write_error (codes "usage: VMQ.PUBLISH_BATCH <topic> <payload1> [payload2...]")) s)

  unfoldable pub refuse_broadcast : Session W → Done W
  refuse_broadcast s =
      next (write (write_error (codes "usage: VMQ.BROADCAST <channel> <message>")) s)

  module _ (parts : Parts W) (env : Env W) where
    unfoldable pub publish_after : Bytes → Option Bytes → ℤ → Session W → Done W
    publish_after name payload delay s =
        if ltb_ℤ (pos 0) delay
        then reply_id env
            (Broker.publish_delayed parts.wal name payload delay (env.entropy 0) env.now s.broker) s
        else reply_id env (Broker.publish parts.wal name payload (env.entropy 0) s.broker) s

    unfoldable pub do_publish : List (Option Bytes) → Session W → Done W
    do_publish (name ∷ payload ∷ args) s = publish_after (bytes_of name) payload (delay_of args) s
    do_publish [] s =
        skip (write (write_error (codes "wrong number of arguments for 'vmq.publish'")) s)
    do_publish (a ∷ []) s =
        skip (write (write_error (codes "wrong number of arguments for 'vmq.publish'")) s)

    unfoldable pub do_consume : List (Option Bytes) → Session W → Done W
    do_consume [] s =
        skip (write (write_error (codes "wrong number of arguments for 'vmq.consume'")) s)
    do_consume (name ∷ args) s =
        reply_payload null_bulk (consume_for env (bytes_of name) (timeout_of args) s) s

    unfoldable pub do_ack : List (Option Bytes) → Session W → Done W
    do_ack (name ∷ group ∷ id ∷ []) s =
        reply_ok (codes "ACK rejected: message not found in pending list")
          (Broker.ack parts.wal (bytes_of name) (bytes_of group) (bytes_of id) s.broker) s
    do_ack [] s = refuse_ack s
    do_ack (a ∷ []) s = refuse_ack s
    do_ack (a ∷ b ∷ []) s = refuse_ack s
    do_ack (a ∷ b ∷ c ∷ d ∷ args) s = refuse_ack s

    unfoldable pub do_nack : List (Option Bytes) → Session W → Done W
    do_nack (name ∷ group ∷ id ∷ args) s =
        reply_nacked
          (Broker.nack (bytes_of name) (bytes_of group) (bytes_of id) (reason_of args) env.failed_at
            s.broker)
          s
    do_nack [] s = refuse_nack s
    do_nack (a ∷ []) s = refuse_nack s
    do_nack (a ∷ b ∷ []) s = refuse_nack s

    unfoldable pub do_replay : List (Option Bytes) → Session W → Done W
    do_replay (name ∷ id ∷ []) s =
        reply_replayed (Broker.replay_dlq (bytes_of name) (bytes_of id) env.now s.broker) s
    do_replay [] s = refuse_replay s
    do_replay (a ∷ []) s = refuse_replay s
    do_replay (a ∷ b ∷ c ∷ args) s = refuse_replay s

    -- Each payload with what its message takes from outside.
    unfoldable pub with_entropy : ℕ → List (Option Bytes) → List (Option Bytes × Entropy)
    with_entropy i [] = []
    with_entropy i (p ∷ ps) = (p, env.entropy i) ∷ with_entropy (suc i) ps

    unfoldable pub do_publish_batch : List (Option Bytes) → Session W → Done W
    do_publish_batch (name ∷ p ∷ ps) s =
        reply_count
          (Broker.publish_batch parts.wal (bytes_of name) (with_entropy 0 (p ∷ ps)) s.broker) s
    do_publish_batch [] s = refuse_batch s
    do_publish_batch (a ∷ []) s = refuse_batch s

    unfoldable pub do_broadcast : List (Option Bytes) → Session W → Done W
    do_broadcast (channel ∷ payload ∷ []) s =
        reply_count (Broker.broadcast (bytes_of channel) payload s.broker) s
    do_broadcast [] s = refuse_broadcast s
    do_broadcast (a ∷ []) s = refuse_broadcast s
    do_broadcast (a ∷ b ∷ c ∷ args) s = refuse_broadcast s

    unfoldable pub do_stats : Session W → Done W
    do_stats s =
        next
          (write (write_bulk_string (some (parts.json_stats (Broker.stats env.uptime s.broker)))) s)
