-- ===== src/Program/Trace.antt =====
-- internal/queue/broker.go over internal/wal/wal.go: runs of calls on a broker with an open log, as a
-- relation between its states.
use vortexmq.Prelude.{◌++◌, ℕ, Option, none, some, List, [], ◌∷◌, Bytes, ◌≡◌}
use vortexmq.Int.{ℤ}
use vortexmq.Message.{Message, Entropy, new_message}
use vortexmq.Broker
use vortexmq.Broker.{
  Broker, put_topic, get_or_create_topic, created, count_published, answered, write_wal, submit,
  write_ack, acked,
}
use vortexmq.Wal.{Storage}
use vortexmq.Wal.Format.{IsFit}
use vortexmq.Wal.Replay.{acknowledgement, payload}
use vortexmq.Program.{LogState}
use vortexmq.Program.Logging.{engine}

-- The messages that a call has returned, before those that later calls return.
abbrev pub and_then : Option Message → List Message → List Message
and_then none ms = ms
and_then (some m) ms = m ∷ ms

-- The messages of a batch, which are made one after the other.
unfoldable pub batch_messages : Bytes → List (Option Bytes × Entropy) → ℕ → List Message
batch_messages name [] sequence = []
batch_messages name ((p, e) ∷ ps) sequence =
    (new_message name p e sequence).0 ∷ batch_messages name ps (new_message name p e sequence).1

module _ {S : Type 0} (io : Storage S) (crc : Bytes → ℕ) (json : Message → Bytes) where
  -- A message that is published has a record of a length that fits, and its JSON decodes to it.
  pub record Encodes (unmarshal : Bytes → Option Message) (m : Message) : Type 0 where
    pub fits : IsFit (json m)
    pub decodes : unmarshal (json m) ≡ some m

  -- The same of the messages of a batch.
  abbrev pub BatchEncodes :
      (Bytes → Option Message) → Bytes → List (Option Bytes × Entropy) → ℕ → Type 0
  BatchEncodes unmarshal name [] sequence = Unit
  BatchEncodes unmarshal name ((p, e) ∷ ps) sequence =
      Encodes unmarshal (new_message name p e sequence).0
      × BatchEncodes unmarshal name ps (new_message name p e sequence).1

  module _ (unmarshal : Bytes → Option Message) where
    -- A run of calls: the messages that they write to the log, and, of these, the ones that Publish and
    -- PublishFront return without an error. A call that leaves the log alone is any other but Close: a
    -- consumption, a failure, a sweep.
    pub data Trace
        : List Message → Broker (LogState S) → List Message → Broker (LogState S) → Type 0 where
      stays : {b : Broker (LogState S)} → Trace [] b [] b
      publishes :
          {ws : List Message} {b b1 b2 : Broker (LogState S)} {r : Option Message}
          {ms : List Message} (name : Bytes) (p : Option Bytes) (e : Entropy)
          → Encodes unmarshal (new_message name p e b.sequence).0
          → Broker.publish (engine io crc json) name p e b ≡ some (b1, r)
          → Trace ws b1 ms b2
          → Trace ((new_message name p e b.sequence).0 ∷ ws) b (and_then r ms) b2
      publishes_front :
          {ws : List Message} {b b1 b2 : Broker (LogState S)} {r : Option Message}
          {ms : List Message} (name : Bytes) (p : Option Bytes) (e : Entropy)
          → Encodes unmarshal (new_message name p e b.sequence).0
          → Broker.publish_front (engine io crc json) name p e b ≡ some (b1, r)
          → Trace ws b1 ms b2
          → Trace ((new_message name p e b.sequence).0 ∷ ws) b (and_then r ms) b2
      publishes_delayed :
          {ws : List Message} {b b1 b2 : Broker (LogState S)} {r : Option Message}
          {ms : List Message} (name : Bytes) (p : Option Bytes) (delay : ℤ) (e : Entropy) (now : ℤ)
          → Encodes unmarshal (new_message name p e b.sequence).0
          → Broker.publish_delayed (engine io crc json) name p delay e now b ≡ some (b1, r)
          → Trace ws b1 ms b2
          → Trace ((new_message name p e b.sequence).0 ∷ ws) b ms b2
      publishes_batch :
          {ws : List Message} {b b1 b2 : Broker (LogState S)} {ms : List Message} (name : Bytes)
          (ps : List (Option Bytes × Entropy)) (count : ℕ)
          → BatchEncodes unmarshal name ps b.sequence
          → Broker.publish_batch (engine io crc json) name ps b ≡ some (b1, count)
          → Trace ws b1 ms b2
          → Trace (batch_messages name ps b.sequence ++ ws) b ms b2
      acknowledges :
          {ws : List Message} {b b2 : Broker (LogState S)} {ms : List Message}
          (name group id : Bytes)
          → IsFit (payload json (acknowledgement name group id))
          → Trace ws (Broker.ack (engine io crc json) name group id b).0 ms b2
          → Trace ws b ms b2
      passes :
          {ws : List Message} {b b1 b2 : Broker (LogState S)} {ms : List Message}
          → b1.wal ≡ b.wal
          → b1.closed ≡ b.closed
          → Trace ws b1 ms b2
          → Trace ws b ms b2
