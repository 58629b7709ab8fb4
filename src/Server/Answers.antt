-- ===== src/Server/Answers.antt =====
-- internal/network/server.go: how a command leaves the session of its client, with a condition on what it
-- writes. The children go through the commands.
pub mod Lists
pub mod Streams
pub mod Native
use vortexmq.Prelude.{Bool, true, false, ◌++◌, ite, if◌then◌else◌, Bytes, ◌≡◌, refl}
use vortexmq.Broker.{Broker}
use vortexmq.Resp.{write_error}
use vortexmq.Resp.Replies.{IsReply, is_text, write_error-IsReply}
use vortexmq.Server.{Session, Done, next, skip, leave, asleep, crashed, write, with_broker}

module _ {W : Type 0} (P : Bytes → Type 0) where
  -- One reply is behind what was written before, and who was authenticated is so still.
  pub record Replied (s s' : Session W) : Type 0 where
    pub reply : Bytes
    pub allowed : P reply
    pub written : s'.output ≡ s.output ++ reply
    pub stays : s.authenticated ≡ true → s'.authenticated ≡ true

  -- A command that does not come back writes nothing.
  abbrev pub Answers : Session W → Done W → Type 0
  Answers s (next s') = Replied s s'
  Answers s (skip s') = Replied s s'
  Answers s (leave s') = Replied s s'
  Answers s (asleep s') = s'.output ≡ s.output
  Answers s crashed = Unit

  pub write-Replied : (r : Bytes) (s : Session W) → P r → Replied s (write r s)
  write-Replied r s h = record { reply = r; allowed = h; written = refl; stays = λ e. e }

  pub write_with_broker-Replied :
      (r : Bytes) (b : Broker W) (s : Session W) → P r → Replied s (write r (with_broker b s))
  write_with_broker-Replied r b s h = record {
    reply = r;
    allowed = h;
    written = refl;
    stays = λ e. e;
  }

  pub if-Answers :
      (t : Bool) (s : Session W) (d d' : Done W)
      → Answers s d
      → Answers s d'
      → Answers s (if t then d else d')
  if-Answers true s d d' p q = p
  if-Answers false s d d' p q = q

  pub ite-Answers {ℓ} :
      {X : Type ℓ} (t : Dec X) (s : Session W) (d d' : Done W)
      → Answers s d
      → Answers s d'
      → Answers s (ite t d d')
  ite-Answers (yes x) s d d' p q = p
  ite-Answers (no f) s d d' p q = q

  module _ (h : (r : Bytes) → IsReply r → P r) where
    pub error-Replied :
        (msg : Bytes) (s : Session W) → is_text msg ≡ true → Replied s (write (write_error msg) s)
    error-Replied msg s e = write-Replied _ s (h _ (write_error-IsReply msg e))
