-- ===== src/Program.antt =====
-- cmd/vortexmq/main.go: the log as the broker's interface has it, and the program's start and stop.
pub mod Logging
pub mod Calls
pub mod Batch
pub mod Trace
pub mod Ran
pub mod Runs
pub mod Restart
pub mod Lossless
use mathlib.Core.Option
use vortexmq.Prelude.{
  ℕ, Bool, true, false, Option, none, some, List, [], ◌∷◌, ite, if◌then◌else◌, bytes_dec, Bytes,
}
use vortexmq.Text.{codes}
use vortexmq.Message.{Message}
use vortexmq.Wal
use vortexmq.Wal.{Wal, Storage, FsyncPolicy, every_sec, always, never, open_wal}
use vortexmq.Broker
use vortexmq.Broker.{Broker, BrokerWal}
use vortexmq.Recovery.{recover}
use vortexmq.Server.Connections
use vortexmq.Server.Connections.{ServerState}

-- The log behind the broker's interface: it runs on its files, or the process has panicked in it.
pub data LogState (S : Type 0) : Type 0 where
  running : Wal → S → LogState S
  panicked : LogState S

-- The flags that the start looks at.
pub record Flags : Type 0 where
  pub enable_wal : Bool
  pub fsync : Bytes

-- `switch *fsyncPolicyStr`
unfoldable pub policy_of : Bytes → FsyncPolicy
policy_of fsync =
    ite (bytes_dec fsync (codes "always")) always
      (ite (bytes_dec fsync (codes "none")) never every_sec)

-- How the start ends, before the servers: with `log.Fatalf`, a panic, or a broker and the number of
-- messages that were recovered.
pub data Started (S : Type 0) : Type 0 where
  fatal : S → Started S
  crashed : Started S
  up : Broker (LogState S) → ℕ → Started S

-- How far the start comes: to a stop with `log.Fatalf`, to a panic, or to the signal handler. The
-- HTTP server's Start has no error.
pub data Launched (S : Type 0) : Type 0 where
  stopped : Launched S
  died : Launched S
  serving : ServerState → Broker (LogState S) → Launched S

module _ {S : Type 0} where
  unfoldable pub called : Option (Wal × S × Bool) → LogState S × Bool
  called none = (panicked, false)
  called (some (w, s, ok)) = (running w s, ok)

  unfoldable pub recovered : Option (Broker (LogState S) × ℕ) → Started S
  recovered none = crashed
  recovered (some (b, n)) = up b n

  -- The rest of the start: the TCP server, which may fail to listen, and the HTTP server.
  unfoldable pub launch : Bool → Started S → Launched S
  launch listens (fatal s) = stopped
  launch listens crashed = died
  launch listens (up b n) = if listens then serving Connections.started b else stopped

  module _ (io : Storage S) (crc : Bytes → ℕ) (marshal : Message → Option Bytes) where
    unfoldable pub engine_publish : Message → LogState S → LogState S × Bool
    engine_publish m (running w s) = called (Wal.write_publish io crc marshal m w s)
    engine_publish m panicked = (panicked, false)

    unfoldable pub engine_ack : Bytes → Bytes → Bytes → LogState S → LogState S × Bool
    engine_ack topic group id (running w s) = called (Wal.write_ack io crc topic group id w s)
    engine_ack topic group id panicked = (panicked, false)

    unfoldable pub engine_close : LogState S → LogState S × Bool
    engine_close (running w s) = called (some (Wal.close io w s))
    engine_close panicked = (panicked, false)

    -- `walEngine`
    abbrev pub wal_engine : BrokerWal (LogState S)
    wal_engine = record {
      write_publish = engine_publish;
      write_ack = engine_ack;
      close = engine_close;
    }

    -- From the opened log to the broker that serves; `files` are the segments that `Replay` finds.
    unfoldable pub replayed :
        (Bytes → Option Message) → (S → List (Option Bytes)) → S × Option Wal → Started S
    replayed unmarshal files (s, none) = fatal s
    replayed unmarshal files (s, some w) =
        recovered (recover crc unmarshal (files s) (Broker.new (some (running w s)) 0))

    -- The start
    unfoldable pub start :
        (Bytes → Option Message) → (S → List (Option Bytes)) → Flags → S → Started S
    start unmarshal files flags s =
        if flags.enable_wal
        then replayed unmarshal files (open_wal io (policy_of flags.fsync) s)
        else up (Broker.new none 0) 0

    -- The end, after the signal; the HTTP server's part is Go's.
    unfoldable pub shut_down : ServerState → Broker (LogState S) → ServerState × Broker (LogState S)
    shut_down server b = (Connections.stop server, (Broker.close wal_engine b).0)
