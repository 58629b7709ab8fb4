-- ===== src/Server/Answers/Native.antt =====
-- internal/network/server.go: the answers of the commands that begin with VMQ.
use vortexmq.Prelude.{ℕ, Bool, true, false, Option, none, some, List, [], ◌∷◌, Bytes, ◌≡◌, refl}
use vortexmq.Int.{ℤ, pos, ltb_ℤ}
use vortexmq.Message.{Message}
use vortexmq.Broker.{Broker}
use vortexmq.Resp.{bytes_of, write_error}
use vortexmq.Resp.Replies.{
  IsReply, is_text, write_integer-IsReply, write_bulk_string-IsReply, ok-IsReply, null_bulk-IsReply,
  write_error-IsReply,
}
use vortexmq.Server.{Session, Env, Parts}
use vortexmq.Server.Native.{
  reply_ok, reply_count, publish_after, do_publish, do_consume, refuse_ack, do_ack, reply_nacked,
  refuse_nack, do_nack, reply_replayed, refuse_replay, do_replay, refuse_batch, do_publish_batch,
  refuse_broadcast, do_broadcast, do_stats, delay_of,
}
use vortexmq.Server.Answers.{
  Answers, write-Replied, write_with_broker-Replied, if-Answers, error-Replied,
}
use vortexmq.Server.Answers.Lists.{reply_payload-Answers}
use vortexmq.Server.Answers.Streams.{reply_id-Answers}

module _ {W : Type 0} (P : Bytes → Type 0) (h : (r : Bytes) → IsReply r → P r) where
  reply_ok-Answers :
      (missing : Bytes) (r : Broker W × Bool) (s : Session W)
      → is_text missing ≡ true
      → Answers P s (reply_ok missing r s)
  unfolding reply_ok
  reply_ok-Answers missing (b, true) s p = write_with_broker-Replied P _ b s (h _ ok-IsReply)
  reply_ok-Answers missing (b, false) s p =
      write_with_broker-Replied P _ b s (h _ (write_error-IsReply missing p))

  reply_count-Answers : (o : Option (Broker W × ℕ)) (s : Session W) → Answers P s (reply_count o s)
  unfolding reply_count
  reply_count-Answers none s = tt
  reply_count-Answers (some (b, n)) s =
      write_with_broker-Replied P _ b s (h _ (write_integer-IsReply (pos n)))

  module _ (env : Env W) (e : P (write_error env.error_text)) (parts : Parts W) where
    publish_after-Answers :
        (name : Bytes) (payload : Option Bytes) (delay : ℤ) (s : Session W)
        → Answers P s (publish_after parts env name payload delay s)
    unfolding publish_after
    publish_after-Answers name payload delay s =
        if-Answers P (ltb_ℤ (pos 0) delay) s _ _ (reply_id-Answers P h env e _ s)
          (reply_id-Answers P h env e _ s)

    pub do_publish-Answers :
        (args : List (Option Bytes)) (s : Session W) → Answers P s (do_publish parts env args s)
    unfolding do_publish is_text
    do_publish-Answers (name ∷ payload ∷ args) s =
        publish_after-Answers (bytes_of name) payload (delay_of args) s
    do_publish-Answers [] s = error-Replied P h _ s refl
    do_publish-Answers (a ∷ []) s = error-Replied P h _ s refl

  refuse_ack-Answers : (s : Session W) → Answers P s (refuse_ack s)
  unfolding refuse_ack is_text
  refuse_ack-Answers s = error-Replied P h _ s refl

  reply_nacked-Answers :
      (o : Option (Broker W × Bool)) (s : Session W) → Answers P s (reply_nacked o s)
  unfolding reply_nacked is_text
  reply_nacked-Answers none s = tt
  reply_nacked-Answers (some r) s = reply_ok-Answers _ r s refl

  refuse_nack-Answers : (s : Session W) → Answers P s (refuse_nack s)
  unfolding refuse_nack is_text
  refuse_nack-Answers s = error-Replied P h _ s refl

  reply_replayed-Answers :
      (r : Broker W × Option Message) (s : Session W) → Answers P s (reply_replayed r s)
  unfolding reply_replayed is_text
  reply_replayed-Answers (b, some m) s = write_with_broker-Replied P _ b s (h _ ok-IsReply)
  reply_replayed-Answers (b, none) s =
      write_with_broker-Replied P _ b s (h _ (write_error-IsReply _ refl))

  refuse_replay-Answers : (s : Session W) → Answers P s (refuse_replay s)
  unfolding refuse_replay is_text
  refuse_replay-Answers s = error-Replied P h _ s refl

  refuse_batch-Answers : (s : Session W) → Answers P s (refuse_batch s)
  unfolding refuse_batch is_text
  refuse_batch-Answers s = error-Replied P h _ s refl

  refuse_broadcast-Answers : (s : Session W) → Answers P s (refuse_broadcast s)
  unfolding refuse_broadcast is_text
  refuse_broadcast-Answers s = error-Replied P h _ s refl

  module _ (parts : Parts W) (env : Env W) where
    pub do_consume-Answers :
        (args : List (Option Bytes)) (s : Session W) → Answers P s (do_consume parts env args s)
    unfolding do_consume is_text
    do_consume-Answers [] s = error-Replied P h _ s refl
    do_consume-Answers (name ∷ args) s = reply_payload-Answers P h _ _ s null_bulk-IsReply

    pub do_ack-Answers :
        (args : List (Option Bytes)) (s : Session W) → Answers P s (do_ack parts env args s)
    unfolding do_ack is_text
    do_ack-Answers (name ∷ group ∷ id ∷ []) s = reply_ok-Answers _ _ s refl
    do_ack-Answers [] s = refuse_ack-Answers s
    do_ack-Answers (a ∷ []) s = refuse_ack-Answers s
    do_ack-Answers (a ∷ b ∷ []) s = refuse_ack-Answers s
    do_ack-Answers (a ∷ b ∷ c ∷ d ∷ args) s = refuse_ack-Answers s

    pub do_nack-Answers :
        (args : List (Option Bytes)) (s : Session W) → Answers P s (do_nack parts env args s)
    unfolding do_nack
    do_nack-Answers (name ∷ group ∷ id ∷ args) s = reply_nacked-Answers _ s
    do_nack-Answers [] s = refuse_nack-Answers s
    do_nack-Answers (a ∷ []) s = refuse_nack-Answers s
    do_nack-Answers (a ∷ b ∷ []) s = refuse_nack-Answers s

    pub do_replay-Answers :
        (args : List (Option Bytes)) (s : Session W) → Answers P s (do_replay parts env args s)
    unfolding do_replay
    do_replay-Answers (name ∷ id ∷ []) s = reply_replayed-Answers _ s
    do_replay-Answers [] s = refuse_replay-Answers s
    do_replay-Answers (a ∷ []) s = refuse_replay-Answers s
    do_replay-Answers (a ∷ b ∷ c ∷ args) s = refuse_replay-Answers s

    pub do_publish_batch-Answers :
        (args : List (Option Bytes)) (s : Session W)
        → Answers P s (do_publish_batch parts env args s)
    unfolding do_publish_batch
    do_publish_batch-Answers (name ∷ p ∷ ps) s = reply_count-Answers _ s
    do_publish_batch-Answers [] s = refuse_batch-Answers s
    do_publish_batch-Answers (a ∷ []) s = refuse_batch-Answers s

    pub do_broadcast-Answers :
        (args : List (Option Bytes)) (s : Session W) → Answers P s (do_broadcast parts env args s)
    unfolding do_broadcast
    do_broadcast-Answers (channel ∷ payload ∷ []) s = reply_count-Answers _ s
    do_broadcast-Answers [] s = refuse_broadcast-Answers s
    do_broadcast-Answers (a ∷ []) s = refuse_broadcast-Answers s
    do_broadcast-Answers (a ∷ b ∷ c ∷ args) s = refuse_broadcast-Answers s

    pub do_stats-Answers : (s : Session W) → Answers P s (do_stats parts env s)
    unfolding do_stats
    do_stats-Answers s = write-Replied P _ s (h _ (write_bulk_string-IsReply _))
