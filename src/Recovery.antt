-- ===== src/Recovery.antt =====
-- cmd/vortexmq/main.go: the replay of the log into a new broker, when the program starts.
pub mod Order
use mathlib.Core.Option
use vortexmq.Prelude.{ℕ, Bool, Option, none, some, List, [], ◌∷◌, Bytes}
use vortexmq.Message.{Message}
use vortexmq.Topic
use vortexmq.Broker.{Broker, put_topic, get_or_create_topic}
use vortexmq.Wal.{replay}

module _ {W : Type 0} where
  -- The callback. The answer of the topic is dropped, and neither the log nor the broker's counters
  -- take part.
  unfoldable pub restore : Message → Broker W → Option (Broker W)
  restore m b =
      Option.map (λ r. put_topic m.topic (Topic.publish m r.1).0 r.0)
        (get_or_create_topic m.topic b)

  unfoldable pub restore_all : List Message → Broker W → Option (Broker W)
  restore_all [] b = some b
  restore_all (m ∷ ms) b = elim (restore m b) [ none ↦ none | some b' ↦ restore_all ms b' ]

  -- `wal.Replay(dir, …)` on the files of the directory, with the number that is logged.
  unfoldable pub recover :
      (Bytes → ℕ)
      → (Bytes → Option Message)
      → List (Option Bytes)
      → Broker W
      → Option (Broker W × ℕ)
  recover crc unmarshal files b =
      Option.map (λ b'. (b', (replay crc unmarshal files).0))
        (restore_all (replay crc unmarshal files).1 b)
