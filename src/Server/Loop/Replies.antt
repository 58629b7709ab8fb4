-- ===== src/Server/Loop/Replies.antt =====
-- internal/network/server.go: what handleConnection writes for one command.
use vortexmq.Prelude.{
  ℕ, Bool, true, false, ◌∷◌, ◌++◌, ◌≡◌, refl, sym, ap, ◌∙◌, subst, append_assoc, Bytes,
}
use vortexmq.Text.{codes}
use vortexmq.Resp.{Command, crlf, write_error}
use vortexmq.Resp.Replies.{
  IsReply, line, is_line_tag, is_text, is_text-append, write_error-IsReply, ok-IsReply,
}
use vortexmq.Server.{
  Session, Env, Parts, Done, next, skip, leave, asleep, crashed, Verb, ping, echo, auth, command,
  info, lpush, rpush, lpop, rpop, bpop, llen, xadd, xgroup, xreadgroup, xack, vmq_publish,
  vmq_consume, vmq_ack, vmq_nack, vmq_replay, vmq_publish_batch, vmq_broadcast, vmq_stats, quit,
  unknown, verb_of, write,
}
use vortexmq.Server.Loop.{do_unknown, flush_if, settle, dispatch, is_refused, handle}
use vortexmq.Server.Answers.{Replied, Answers, write-Replied, if-Answers, error-Replied}
use vortexmq.Server.Answers.Lists.{
  do_ping-Answers, do_echo-Answers, do_auth-Answers, do_command-Answers, do_info-Answers,
  do_lpush-Answers, do_rpush-Answers, do_lpop-Answers, do_rpop-Answers, do_bpop-Answers,
  do_llen-Answers,
}
use vortexmq.Server.Answers.Streams.{
  do_xadd-Answers, do_xgroup-Answers, do_xreadgroup-Answers, do_xack-Answers,
}
use vortexmq.Server.Answers.Native.{
  do_publish-Answers, do_consume-Answers, do_ack-Answers, do_nack-Answers, do_replay-Answers,
  do_publish_batch-Answers, do_broadcast-Answers, do_stats-Answers,
}

abbrev pub unknown_text : Bytes → Bytes
unknown_text name = codes "unknown command '" ++ (name ++ codes "'")

unknown_text-is_text : (name : Bytes) → is_text name ≡ true → is_text (unknown_text name) ≡ true
unfolding is_text
unknown_text-is_text name h =
    is_text-append (codes "unknown command '") (name ++ codes "'") refl
      (is_text-append name (codes "'") h refl)

module _ {W : Type 0} (P : Bytes → Type 0) where
  flush_if-Replied :
      (idle : Bool) (s s' : Session W) → Replied P s s' → Replied P s (flush_if idle s')
  unfolding flush_if
  flush_if-Replied true s s' r = record {
    reply = r.reply;
    allowed = r.allowed;
    written = r.written;
    stays = r.stays;
  }
  flush_if-Replied false s s' r = r

  settle-Answers :
      (idle : Bool) (s : Session W) (d : Done W) → Answers P s d → Answers P s (settle idle d)
  unfolding settle
  settle-Answers idle s (next s') r = flush_if-Replied idle s s' r
  settle-Answers idle s (skip s') r = r
  settle-Answers idle s (leave s') r = record {
    reply = r.reply;
    allowed = r.allowed;
    written = r.written;
    stays = r.stays;
  }
  settle-Answers idle s (asleep s') r = r
  settle-Answers idle s crashed r = tt

  module _ (h : (r : Bytes) → IsReply r → P r) (parts : Parts W) (password : Bytes) (env : Env W)
      (e : P (write_error env.error_text)) (c : Command) (u : P (write_error (unknown_text c.name)))
      (s : Session W) where
    dispatch-Answers : (v : Verb) → Answers P s (dispatch parts password env v c s)
    unfolding dispatch do_unknown
    dispatch-Answers ping = do_ping-Answers P h c.args s
    dispatch-Answers echo = do_echo-Answers P h c.args s
    dispatch-Answers auth = do_auth-Answers P h password c.args s
    dispatch-Answers command = do_command-Answers P h s
    dispatch-Answers info = do_info-Answers P h env s
    dispatch-Answers lpush = do_lpush-Answers P h env parts c.args s
    dispatch-Answers rpush = do_rpush-Answers P h env parts c.args s
    dispatch-Answers lpop = do_lpop-Answers P h env c.args s
    dispatch-Answers rpop = do_rpop-Answers P h env c.args s
    dispatch-Answers bpop = do_bpop-Answers P h env c.args s
    dispatch-Answers llen = do_llen-Answers P h c.args s
    dispatch-Answers xadd = do_xadd-Answers P h env e parts c.args s
    dispatch-Answers xgroup = do_xgroup-Answers P h parts env c.args s
    dispatch-Answers xreadgroup = do_xreadgroup-Answers P h parts env c.args s
    dispatch-Answers xack = do_xack-Answers P h parts env c.args s
    dispatch-Answers vmq_publish = do_publish-Answers P h env e parts c.args s
    dispatch-Answers vmq_consume = do_consume-Answers P h parts env c.args s
    dispatch-Answers vmq_ack = do_ack-Answers P h parts env c.args s
    dispatch-Answers vmq_nack = do_nack-Answers P h parts env c.args s
    dispatch-Answers vmq_replay = do_replay-Answers P h parts env c.args s
    dispatch-Answers vmq_publish_batch = do_publish_batch-Answers P h parts env c.args s
    dispatch-Answers vmq_broadcast = do_broadcast-Answers P h parts env c.args s
    dispatch-Answers vmq_stats = do_stats-Answers P h parts env s
    dispatch-Answers quit = write-Replied P _ s (h _ ok-IsReply)
    dispatch-Answers unknown = write-Replied P _ s u

    handle-Answers : (idle : Bool) → Answers P s (handle parts password env idle c s)
    unfolding handle is_text
    handle-Answers idle =
        if-Answers P (is_refused parts password c s) s _ _
          (flush_if-Replied idle s _
            (error-Replied P h (codes "NOAUTH Authentication required.") s refl))
          (settle-Answers idle s _ (dispatch-Answers (verb_of c.name)))

-- For every command of a client, authenticated or not, whose name has no line break, handleConnection
-- writes exactly one RESP2 reply, whatever the arguments, the payloads of messages and the state of the
-- broker are, unless it does not come back: then it has written nothing if it is asleep, and the process
-- has stopped otherwise. Nobody who was authenticated ceases to be. The broker's error texts have no
-- line break by hypothesis.
pub handle-IsReply :
    {W : Type 0} (parts : Parts W) (password : Bytes) (env : Env W) (idle : Bool) (c : Command)
    (s : Session W)
    → is_text env.error_text ≡ true
    → is_text c.name ≡ true
    → Answers IsReply s (handle parts password env idle c s)
handle-IsReply parts password env idle c s e n =
    handle-Answers IsReply (λ r p. p) parts password env (write_error-IsReply env.error_text e) c
      (write_error-IsReply _ (unknown_text-is_text c.name n)) s idle

regroup : (a m b q z : Bytes) → ((a ++ (m ++ b)) ++ q) ++ z ≡ (a ++ m) ++ (b ++ (q ++ z))
regroup a m b q z =
    append_assoc (a ++ (m ++ b)) q z
    ∙ (append_assoc a (m ++ b) (q ++ z)
        ∙ (ap (λ x. a ++ x) (append_assoc m b (q ++ z)) ∙ sym (append_assoc a m (b ++ (q ++ z)))))

-- The branch of the unknown commands, for a name with one line break, CRLF, behind which the first byte is
-- the tag of a reply of one line (+, - or :), answers with two replies, not one, and the second is what
-- the client put behind the line break, with the closing quote.
pub do_unknown-two_replies :
    {W : Type 0} (a b : Bytes) (tag : ℕ) (s : Session W)
    → is_text a ≡ true
    → is_text b ≡ true
    → is_line_tag tag ≡ true
    → IsReply (write_error (codes "unknown command '" ++ a))
      × IsReply (tag ∷ (b ++ (codes "'" ++ crlf)))
      × (do_unknown (a ++ (crlf ++ (tag ∷ b))) s
          ≡ next (
              write
                (write_error (codes "unknown command '" ++ a) ++ (tag ∷ (b ++ (codes "'" ++ crlf))))
                s))
unfolding do_unknown write_error is_text
do_unknown-two_replies a b tag s p q t = (
  write_error-IsReply (codes "unknown command '" ++ a)
      (is_text-append (codes "unknown command '") a refl p),
  subst IsReply (ap (λ x. tag ∷ x) (append_assoc b (codes "'") crlf))
      (line tag (b ++ codes "'") t (is_text-append b (codes "'") q refl)),
  ap (λ x. next (write (codes "-ERR unknown command '" ++ x) s))
      (regroup a crlf (tag ∷ b) (codes "'") crlf),
)
