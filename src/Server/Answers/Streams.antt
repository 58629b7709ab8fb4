-- ===== src/Server/Answers/Streams.antt =====
-- internal/network/server.go: the answers of the commands on streams and consumer groups.
use vortexmq.Prelude.{ℕ, Option, none, some, List, [], ◌∷◌, ◌||◌, bytes_dec, Bytes, refl}
use vortexmq.Int.{pos}
use vortexmq.Text.{codes}
use vortexmq.Message.{Message}
use vortexmq.Broker.{Broker, Taken, sleeping, returned, stopped}
use vortexmq.Resp.{bytes_of, to_upper, write_error}
use vortexmq.Resp.Replies.{
  IsReply, is_text, write_integer-IsReply, write_bulk_string-IsReply, write_array-IsReply,
  ok-IsReply, null_bulk-IsReply,
}
use vortexmq.Server.{Session, Env, Parts}
use vortexmq.Server.Streams.{
  Found, nothing_found, find, is_empty_text, reply_id, reply_message, create_group, reply_created,
  ack_loop, do_xadd, refuse_xgroup, do_xgroup, read_group, do_xreadgroup, reply_acked, do_xack,
}
use vortexmq.Server.Answers.{
  Answers, write_with_broker-Replied, if-Answers, ite-Answers, error-Replied,
}

module _ {W : Type 0} (P : Bytes → Type 0) (h : (r : Bytes) → IsReply r → P r) where
  reply_message-Answers : (t : Option (Taken W)) (s : Session W) → Answers P s (reply_message t s)
  unfolding reply_message
  reply_message-Answers none s = tt
  reply_message-Answers (some (sleeping b)) s = refl
  reply_message-Answers (some (returned b none)) s =
      write_with_broker-Replied P _ b s (h _ null_bulk-IsReply)
  reply_message-Answers (some (returned b (some m))) s =
      write_with_broker-Replied P _ b s (h _ (write_array-IsReply _))
  reply_message-Answers (some stopped) s = tt

  reply_created-Answers : (o : Option (Broker W)) (s : Session W) → Answers P s (reply_created o s)
  unfolding reply_created
  reply_created-Answers none s = tt
  reply_created-Answers (some b) s = write_with_broker-Replied P _ b s (h _ ok-IsReply)

  reply_acked-Answers : (r : Broker W × ℕ) (s : Session W) → Answers P s (reply_acked r s)
  unfolding reply_acked
  reply_acked-Answers (b, n) s =
      write_with_broker-Replied P _ b s (h _ (write_integer-IsReply (pos n)))

  module _ (env : Env W) (e : P (write_error env.error_text)) where
    pub reply_id-Answers :
        (o : Option (Broker W × Option Message)) (s : Session W) → Answers P s (reply_id env o s)
    unfolding reply_id
    reply_id-Answers none s = tt
    reply_id-Answers (some (b, none)) s = write_with_broker-Replied P _ b s e
    reply_id-Answers (some (b, some m)) s =
        write_with_broker-Replied P _ b s (h _ (write_bulk_string-IsReply (some m.id)))

    module _ (parts : Parts W) where
      pub do_xadd-Answers :
          (args : List (Option Bytes)) (s : Session W) → Answers P s (do_xadd parts env args s)
      unfolding do_xadd is_text
      do_xadd-Answers (name ∷ id ∷ field ∷ fields) s = reply_id-Answers _ s
      do_xadd-Answers [] s = error-Replied P h _ s refl
      do_xadd-Answers (a ∷ []) s = error-Replied P h _ s refl
      do_xadd-Answers (a ∷ b ∷ []) s = error-Replied P h _ s refl

  refuse_xgroup-Answers : (s : Session W) → Answers P s (refuse_xgroup s)
  unfolding refuse_xgroup is_text
  refuse_xgroup-Answers s = error-Replied P h _ s refl

  module _ (parts : Parts W) (env : Env W) where
    pub do_xgroup-Answers :
        (args : List (Option Bytes)) (s : Session W) → Answers P s (do_xgroup parts env args s)
    unfolding do_xgroup
    do_xgroup-Answers (sub ∷ name ∷ group ∷ id ∷ args) s =
        ite-Answers P (bytes_dec (to_upper parts.unicode (bytes_of sub)) (codes "CREATE")) s _ _
          (reply_created-Answers (create_group (bytes_of name) (bytes_of group) s.broker) s)
          (refuse_xgroup-Answers s)
    do_xgroup-Answers [] s = refuse_xgroup-Answers s
    do_xgroup-Answers (a ∷ []) s = refuse_xgroup-Answers s
    do_xgroup-Answers (a ∷ b ∷ []) s = refuse_xgroup-Answers s
    do_xgroup-Answers (a ∷ b ∷ c ∷ []) s = refuse_xgroup-Answers s

    read_group-Answers : (f : Found) (s : Session W) → Answers P s (read_group parts env f s)
    unfolding read_group is_text
    read_group-Answers f s =
        if-Answers P (is_empty_text f.topic || is_empty_text f.group) s _ _
          (error-Replied P h (codes "invalid xreadgroup arguments") s refl)
          (reply_message-Answers _ s)

    pub do_xreadgroup-Answers :
        (args : List (Option Bytes)) (s : Session W) → Answers P s (do_xreadgroup parts env args s)
    unfolding do_xreadgroup
    do_xreadgroup-Answers args s = read_group-Answers (find parts.unicode args nothing_found) s

    pub do_xack-Answers :
        (args : List (Option Bytes)) (s : Session W) → Answers P s (do_xack parts env args s)
    unfolding do_xack is_text
    do_xack-Answers (name ∷ group ∷ id ∷ ids) s =
        reply_acked-Answers (ack_loop parts (bytes_of name) (bytes_of group) (id ∷ ids) s.broker) s
    do_xack-Answers [] s = error-Replied P h _ s refl
    do_xack-Answers (a ∷ []) s = error-Replied P h _ s refl
    do_xack-Answers (a ∷ b ∷ []) s = error-Replied P h _ s refl
