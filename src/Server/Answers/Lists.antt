-- ===== src/Server/Answers/Lists.antt =====
-- internal/network/server.go: the answers of PING, ECHO, AUTH, COMMAND, INFO, and the commands on lists.
use vortexmq.Prelude.{true, Option, none, some, List, [], ◌∷◌, bytes_dec, lookup, Bytes, refl}
use vortexmq.Int.{pos}
use vortexmq.Text.{codes}
use vortexmq.Topic.{Topic}
use vortexmq.Broker.{Broker, Taken, sleeping, returned, stopped}
use vortexmq.Resp.{bytes_of, ok}
use vortexmq.Resp.Replies.{
  IsReply, is_text, write_integer-IsReply, write_bulk_string-IsReply, write_array-IsReply,
  pong-IsReply, ok-IsReply, null_bulk-IsReply, empty_array-IsReply,
}
use vortexmq.Server.{Session, Env, Parts, Done, crashed, write, with_broker}
use vortexmq.Server.Lists.{
  do_ping, do_echo, check_password, do_auth, do_command, do_info, reply_length, reply_pushed,
  do_lpush, do_rpush, reply_payload, do_lpop, do_rpop, reply_pair, do_bpop, do_llen,
}
use vortexmq.Server.Answers.{
  Replied, Answers, write-Replied, write_with_broker-Replied, ite-Answers, error-Replied,
}

module _ {W : Type 0} (P : Bytes → Type 0) (h : (r : Bytes) → IsReply r → P r) where
  pub do_ping-Answers : (args : List (Option Bytes)) (s : Session W) → Answers P s (do_ping args s)
  unfolding do_ping
  do_ping-Answers [] s = write-Replied P _ s (h _ pong-IsReply)
  do_ping-Answers (arg ∷ args) s = write-Replied P _ s (h _ (write_bulk_string-IsReply arg))

  pub do_echo-Answers : (args : List (Option Bytes)) (s : Session W) → Answers P s (do_echo args s)
  unfolding do_echo is_text
  do_echo-Answers [] s = error-Replied P h _ s refl
  do_echo-Answers (arg ∷ args) s = write-Replied P _ s (h _ (write_bulk_string-IsReply arg))

  let_in-Replied : (s : Session W) → Replied P s (write ok (record s { authenticated = true }))
  let_in-Replied s = record {
    reply = _;
    allowed = h _ ok-IsReply;
    written = refl;
    stays = λ e. refl;
  }

  check_password-Answers :
      (password given : Bytes) (s : Session W) → Answers P s (check_password password given s)
  unfolding check_password is_text
  check_password-Answers [] given s = let_in-Replied s
  check_password-Answers (c ∷ password) given s =
      ite-Answers P (bytes_dec given (c ∷ password)) s _ _ (let_in-Replied s)
        (error-Replied P h (codes "ERR invalid password") s refl)

  pub do_auth-Answers :
      (password : Bytes) (args : List (Option Bytes)) (s : Session W)
      → Answers P s (do_auth password args s)
  unfolding do_auth is_text
  do_auth-Answers password [] s = error-Replied P h _ s refl
  do_auth-Answers password (arg ∷ []) s = check_password-Answers password (bytes_of arg) s
  do_auth-Answers password (arg ∷ other ∷ args) s = error-Replied P h _ s refl

  pub do_command-Answers : (s : Session W) → Answers P s (do_command s)
  unfolding do_command
  do_command-Answers s = write-Replied P _ s (h _ empty_array-IsReply)

  pub do_info-Answers : (env : Env W) (s : Session W) → Answers P s (do_info env s)
  unfolding do_info
  do_info-Answers env s = write-Replied P _ s (h _ (write_bulk_string-IsReply _))

  reply_length-Answers :
      (missing : Done W) (o : Option Topic) (b : Broker W) (s : Session W)
      → Answers P s missing
      → Answers P s (reply_length missing o (with_broker b s))
  unfolding reply_length
  reply_length-Answers missing none b s p = p
  reply_length-Answers missing (some t) b s p =
      write_with_broker-Replied P _ b s (h _ (write_integer-IsReply _))

  reply_pushed-Answers :
      (name : Bytes) (o : Option (Broker W)) (s : Session W) → Answers P s (reply_pushed name o s)
  unfolding reply_pushed
  reply_pushed-Answers name none s = tt
  reply_pushed-Answers name (some b) s = reply_length-Answers crashed (lookup name b.topics) b s tt

  pub reply_payload-Answers :
      (missing : Bytes) (t : Taken W) (s : Session W)
      → IsReply missing
      → Answers P s (reply_payload missing t s)
  unfolding reply_payload
  reply_payload-Answers missing (sleeping b) s p = refl
  reply_payload-Answers missing (returned b none) s p = write_with_broker-Replied P _ b s (h _ p)
  reply_payload-Answers missing (returned b (some m)) s p =
      write_with_broker-Replied P _ b s (h _ (write_bulk_string-IsReply m.payload))
  reply_payload-Answers missing stopped s p = tt

  reply_pair-Answers :
      (name : Bytes) (t : Taken W) (s : Session W) → Answers P s (reply_pair name t s)
  unfolding reply_pair
  reply_pair-Answers name (sleeping b) s = refl
  reply_pair-Answers name (returned b none) s =
      write_with_broker-Replied P _ b s (h _ null_bulk-IsReply)
  reply_pair-Answers name (returned b (some m)) s =
      write_with_broker-Replied P _ b s (h _ (write_array-IsReply _))
  reply_pair-Answers name stopped s = tt

  pub do_llen-Answers : (args : List (Option Bytes)) (s : Session W) → Answers P s (do_llen args s)
  unfolding do_llen is_text
  do_llen-Answers [] s = error-Replied P h _ s refl
  do_llen-Answers (name ∷ []) s =
      reply_length-Answers _ (lookup (bytes_of name) s.broker.topics) s.broker s
        (write-Replied P _ s (h _ (write_integer-IsReply (pos 0))))
  do_llen-Answers (name ∷ other ∷ args) s = error-Replied P h _ s refl

  module _ (env : Env W) where
    pub do_lpop-Answers :
        (args : List (Option Bytes)) (s : Session W) → Answers P s (do_lpop env args s)
    unfolding do_lpop is_text
    do_lpop-Answers [] s = error-Replied P h _ s refl
    do_lpop-Answers (name ∷ args) s = reply_payload-Answers _ _ s (write_bulk_string-IsReply none)

    pub do_rpop-Answers :
        (args : List (Option Bytes)) (s : Session W) → Answers P s (do_rpop env args s)
    unfolding do_rpop is_text
    do_rpop-Answers [] s = error-Replied P h _ s refl
    do_rpop-Answers (name ∷ args) s = reply_payload-Answers _ _ s (write_bulk_string-IsReply none)

    pub do_bpop-Answers :
        (args : List (Option Bytes)) (s : Session W) → Answers P s (do_bpop env args s)
    unfolding do_bpop is_text
    do_bpop-Answers [] s = error-Replied P h _ s refl
    do_bpop-Answers (name ∷ []) s = error-Replied P h _ s refl
    do_bpop-Answers (name ∷ arg ∷ args) s = reply_pair-Answers (bytes_of name) _ s

    module _ (parts : Parts W) where
      pub do_lpush-Answers :
          (args : List (Option Bytes)) (s : Session W) → Answers P s (do_lpush parts env args s)
      unfolding do_lpush is_text
      do_lpush-Answers [] s = error-Replied P h _ s refl
      do_lpush-Answers (name ∷ []) s = error-Replied P h _ s refl
      do_lpush-Answers (name ∷ v ∷ vs) s = reply_pushed-Answers (bytes_of name) _ s

      pub do_rpush-Answers :
          (args : List (Option Bytes)) (s : Session W) → Answers P s (do_rpush parts env args s)
      unfolding do_rpush is_text
      do_rpush-Answers [] s = error-Replied P h _ s refl
      do_rpush-Answers (name ∷ []) s = error-Replied P h _ s refl
      do_rpush-Answers (name ∷ v ∷ vs) s = reply_pushed-Answers (bytes_of name) _ s
