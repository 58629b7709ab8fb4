-- ===== src/Server.antt =====
-- internal/network/server.go: the state of a client's connection, and how its handler ends a command.
-- The commands are in the children. Sockets are not modelled: a session is the bytes that a client
-- sends and those that are written for it.
pub mod Lists
pub mod Streams
pub mod Native
pub mod Answers
pub mod Loop
pub mod Connections
use vortexmq.Prelude.{ℕ, Bool, none, some, List, [], ◌∷◌, ◌++◌, length, Bytes, Map, lookup}
use vortexmq.Int.{ℤ}
use vortexmq.Text.{codes}
use vortexmq.Message.{Entropy}
use vortexmq.Topic.{Topic}
use vortexmq.Broker.{Broker, BrokerStats, BrokerWal}
use vortexmq.Resp.{Unicode}

-- What handleConnection works on: the broker, its flag, all that the writer has been given, and how much
-- of that was sent by the last Flush. What bufio.Writer sends by itself when its 64 KB are full is not
-- counted.
pub record Session (W : Type 0) : Type 0 where
  pub broker : Broker W
  pub authenticated : Bool
  pub output : Bytes
  pub flushed : ℕ

-- What a command takes from outside: the clock and the random bytes of its messages, the wake-ups of a
-- wait and what the other clients have done to the broker by its end, and the text of an error.
pub record Env (W : Type 0) : Type 0 where
  pub entropy : ℕ → Entropy
  pub now : ℤ
  pub failed_at : ℤ
  pub uptime : ℤ
  pub wakes : List (ℤ × Topic)
  pub others : Broker W → Broker W
  pub error_text : Bytes

-- The parts that are not the server's: the log, Go's text beyond ASCII and its JSON.
pub record Parts (W : Type 0) : Type 0 where
  pub wal : BrokerWal W
  pub unicode : Unicode
  pub json_map : Map Bytes → Bytes
  pub json_stats : BrokerStats → Bytes

-- How a command's case ends: at the end of the switch, by `continue`, by `return`, asleep in the broker,
-- or with the process stopped.
pub data Done (W : Type 0) : Type 0 where
  next : Session W → Done W
  skip : Session W → Done W
  leave : Session W → Done W
  asleep : Session W → Done W
  crashed : Done W

-- The cases of the switch.
pub data Verb : Type 0 where
  ping echo auth command info lpush rpush lpop rpop bpop llen : Verb
  xadd xgroup xreadgroup xack : Verb
  vmq_publish vmq_consume vmq_ack vmq_nack vmq_replay : Verb
  vmq_publish_batch vmq_broadcast vmq_stats quit unknown : Verb

abbrev pub verbs : Map Verb
verbs =
    (codes "PING", ping)
    ∷ (codes "ECHO", echo)
    ∷ (codes "AUTH", auth)
    ∷ (codes "COMMAND", command)
    ∷ (codes "INFO", info)
    ∷ (codes "LPUSH", lpush)
    ∷ (codes "RPUSH", rpush)
    ∷ (codes "LPOP", lpop)
    ∷ (codes "RPOP", rpop)
    ∷ (codes "BRPOP", bpop)
    ∷ (codes "BLPOP", bpop)
    ∷ (codes "LLEN", llen)
    ∷ (codes "XADD", xadd)
    ∷ (codes "XGROUP", xgroup)
    ∷ (codes "XREADGROUP", xreadgroup)
    ∷ (codes "XACK", xack)
    ∷ (codes "VMQ.PUBLISH", vmq_publish)
    ∷ (codes "VMQ.CONSUME", vmq_consume)
    ∷ (codes "VMQ.ACK", vmq_ack)
    ∷ (codes "VMQ.NACK", vmq_nack)
    ∷ (codes "VMQ.REPLAY", vmq_replay)
    ∷ (codes "VMQ.PUBLISH_BATCH", vmq_publish_batch)
    ∷ (codes "VMQ.BROADCAST", vmq_broadcast)
    ∷ (codes "VMQ.STATS", vmq_stats)
    ∷ (codes "QUIT", quit)
    ∷ []

unfoldable pub verb_of : Bytes → Verb
verb_of name = elim (lookup name verbs) [ none ↦ unknown | some v ↦ v ]

module _ {W : Type 0} where
  abbrev pub write : Bytes → Session W → Session W
  write bs s = record s { output = s.output ++ bs }

  abbrev pub flush : Session W → Session W
  flush s = record s { flushed = length s.output }

  abbrev pub with_broker : Broker W → Session W → Session W
  with_broker b s = record s { broker = b }
