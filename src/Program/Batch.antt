-- ===== src/Program/Batch.antt =====
-- internal/queue/broker.go over internal/wal/wal.go: what PublishBatch leaves in the files of an open log.
use mathlib.Core.Option
use vortexmq.Prelude.{
  ℕ, sym, subst, ◌%◌, word, Bool, Option, some, List, [], ◌∷◌, ◌++◌, Bytes, ◌≡◌, refl, ap,
}
use vortexmq.Message.{Message, Entropy}
use vortexmq.Topic.{Topic}
use vortexmq.Broker
use vortexmq.Broker.{
  Broker, put_topic, get_or_create_topic, created, count_published, answered, write_wal, submit,
  write_ack, acked,
}
use vortexmq.Wal.{Wal, Storage}
use vortexmq.Wal.Format.{IsFit}
use vortexmq.Wal.Durable.{IsStorage}
use vortexmq.Wal.Replay.{Event, publication}
use vortexmq.Program.{LogState, running}
use vortexmq.Program.Calls.{get_or_create_topic-Opens}
use vortexmq.Program.Logging.{engine, IsKept, Logged, Logged-wal, logs-one, write_wal-running}

module _ {S : Type 0} (io : Storage S) (crc : Bytes → ℕ) (json : Message → Bytes)
    (full : S → List Bytes) (active held : S → Bytes) (laws : IsStorage io full active held)
    (Good : Wal → S → Type 0) (kept : IsKept io crc json Good) where
  abbrev Log : Broker (LogState S) → List Event → Type 0
  Log = Logged io crc json full active held laws Good kept

  -- One round of PublishBatch: the log has the message, and the counter of messages is as it was.
  pub round-Logged :
      (m : Message) (b : Broker (LogState S)) (es : List Event)
      → IsFit (json m)
      → Log b es
      → Log (write_wal (engine io crc json) m b).0 (es ++ (publication m ∷ []))
        × ((write_wal (engine io crc json) m b).0.sequence ≡ b.sequence)
  round-Logged m b es fit h =
      let (l, l', is_wal, runs, after) =
        logs-one io crc json full active held laws Good kept b es (publication m) fit h in
      subst
        (λ (x : Broker (LogState S)).
          Log x (es ++ (publication m ∷ [])) × (x.sequence ≡ b.sequence))
        (sym (
          ap (λ (r : Broker (LogState S) × Bool). r.0)
            (write_wal-running io crc json full active held laws Good kept m b l.0 l'.0 l.1 l'.1
              is_wal runs)))
        (after (record b { wal = some (running l'.0 l'.1) }) refl refl, refl)

  -- What PublishBatch finds when it has its topic.
  pub batch-Opens :
      (name : Bytes) (p : Option Bytes × Entropy) (ps : List (Option Bytes × Entropy))
      (b : Broker (LogState S)) (es : List Event)
      → Log b es
      → (b' : Broker (LogState S)) × (t : Topic) × (Broker.publish_batch
            (engine io crc json)
            name
            (p ∷ ps)
            b
          ≡ some (
              let (b'', t', n) = Broker.batch_loop (engine io crc json) name (p ∷ ps) b' t in
              (count_published (n % word) (put_topic name t' b''), n)))
        × Log b' es
        × (b'.sequence ≡ b.sequence)
  unfolding Broker.publish_batch
  batch-Opens name p ps b es h =
      let o = get_or_create_topic-Opens name b in
      (
        o.broker,
        o.topic,
        ap
            (Option.map (λ (r : Broker (LogState S) × Topic).
              let (b'', t', n) = Broker.batch_loop (engine io crc json) name (p ∷ ps) r.0 r.1 in
              (count_published (n % word) (put_topic name t' b''), n)))
            o.runs,
        Logged-wal io crc json full active held laws Good kept b o.broker es o.same_wal
            o.same_closed h,
        o.same_sequence,
      )
