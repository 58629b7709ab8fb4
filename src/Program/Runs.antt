-- ===== src/Program/Runs.antt =====
-- internal/queue/broker.go over internal/wal/wal.go: that every run of calls leaves the log of its
-- messages.
use mathlib.Core.Option
use mathlib.Core.List.{Sublistᴰ}
use vortexmq.Prelude.{
  ℕ, Bool, Option, none, some, some-value, List, [], ◌∷◌, ◌++◌, Bytes, inl, inr, append-nil, ◌≡◌,
  refl, sym, ◌∙◌, subst,
}
use vortexmq.Int.{ℤ}
use vortexmq.Message.{Message, Entropy, new_message}
use vortexmq.Topic
use vortexmq.Topic.{Topic}
use vortexmq.Broker
use vortexmq.Broker.{
  Broker, put_topic, get_or_create_topic, created, count_published, answered, write_wal, submit,
  write_ack, acked,
}
use vortexmq.Wal.{Wal, Storage}
use vortexmq.Wal.Format.{IsFit}
use vortexmq.Wal.Durable.{IsStorage}
use vortexmq.Wal.Replay.{Event, publication, acknowledgement, publications, payload, AllFit}
use vortexmq.Wal.Restart.{publications-append}
use vortexmq.Program.{LogState}
use vortexmq.Program.Logging.{Logged, IsKept, Logged-wal, engine}
use vortexmq.Program.Calls.{publication-Logged, delayed-Logged, Acknowledged, ack-Logged}
use vortexmq.Program.Batch.{round-Logged, batch-Opens}
use vortexmq.Program.Ran.{Ran, Ran-publication, Ran-unheard, AllFit-snoc, Logged-same}
use vortexmq.Program.Trace.{
  publishes_batch, BatchEncodes, batch_messages, Trace, stays, publishes, publishes_front,
  publishes_delayed, acknowledges, passes, Encodes, and_then,
}

module _ {S : Type 0} (io : Storage S) (crc : Bytes → ℕ) (json : Message → Bytes)
    (full : S → List Bytes) (active held : S → Bytes) (laws : IsStorage io full active held)
    (Good : Wal → S → Type 0) (kept : IsKept io crc json Good) where
  -- The names of the logging of calls, with this section's parameters.
  abbrev Log : Broker (LogState S) → List Event → Type 0
  Log = Logged io crc json full active held laws Good kept

  module _ (unmarshal : Bytes → Option Message) where
    abbrev Runs : List Message → List Event → List Message → Broker (LogState S) → Type 0
    Runs = Ran io crc json full active held laws Good kept unmarshal

    publish-Ran :
        (enqueue : Message → Topic → Topic × Bool) (name : Bytes) (p : Option Bytes) (e : Entropy)
        (ws : List Message) (b b1 b2 : Broker (LogState S)) (r : Option Message) (ms : List Message)
        (es : List Event)
        → Encodes io crc json unmarshal (new_message name p e b.sequence).0
        → Option.map (submit (engine io crc json) enqueue name) (created name p e b) ≡ some (b1, r)
        → AllFit json unmarshal es
        → Log b es
        → ((es' : List Event) → AllFit json unmarshal es' → Log b1 es' → Runs ws es' ms b2)
        → Runs ((new_message name p e b.sequence).0 ∷ ws) es (and_then r ms) b2
    publish-Ran enqueue name p e ws b b1 b2 r ms es code runs fit h rest =
        let (x, y, runs', log, answer) =
          publication-Logged io crc json full active held laws Good kept enqueue name p e b es
            code.fits h in
        let (log', answer') =
          Logged-same io crc json full active held laws Good kept unmarshal
            (es ++ (publication (new_message name p e b.sequence).0 ∷ []))
            (new_message name p e b.sequence).0 x b1 y r _ runs' runs log answer in
        Ran-publication io crc json full active held laws Good kept unmarshal ws es
          (new_message name p e b.sequence).0 r ms b2 answer'
          (rest _
            (AllFit-snoc io crc json full active held laws Good kept unmarshal es
              (publication (new_message name p e b.sequence).0) fit ((code.fits, code.decodes), tt))
            log')

    delayed-Ran :
        (name : Bytes) (p : Option Bytes) (delay : ℤ) (e : Entropy) (now : ℤ) (ws : List Message)
        (b b1 b2 : Broker (LogState S)) (r : Option Message) (ms : List Message) (es : List Event)
        → Encodes io crc json unmarshal (new_message name p e b.sequence).0
        → Broker.publish_delayed (engine io crc json) name p delay e now b ≡ some (b1, r)
        → AllFit json unmarshal es
        → Log b es
        → ((es' : List Event) → AllFit json unmarshal es' → Log b1 es' → Runs ws es' ms b2)
        → Runs ((new_message name p e b.sequence).0 ∷ ws) es ms b2
    delayed-Ran name p delay e now ws b b1 b2 r ms es code runs fit h rest =
        let (x, y, runs', log) =
          delayed-Logged io crc json full active held laws Good kept name p delay e now b es
            code.fits h in
        Ran-publication io crc json full active held laws Good kept unmarshal ws es
          (new_message name p e b.sequence).0 none ms b2 (inl refl)
          (rest _
            (AllFit-snoc io crc json full active held laws Good kept unmarshal es
              (publication (new_message name p e b.sequence).0) fit ((code.fits, code.decodes), tt))
            (subst
              (λ (q : Broker (LogState S) × Option Message).
                Log q.0 (es ++ (publication (new_message name p e b.sequence).0 ∷ [])))
              (some-value (x, y) (b1, r) (sym runs' ∙ runs)) log))

    -- The rounds of PublishBatch, before a run.
    batch_loop-Ran :
        (name : Bytes) (ps : List (Option Bytes × Entropy)) (ws : List Message)
        (b b2 : Broker (LogState S)) (t : Topic) (ms : List Message) (es : List Event)
        → BatchEncodes io crc json unmarshal name ps b.sequence
        → AllFit json unmarshal es
        → Log b es
        → ((es' : List Event)
            → AllFit json unmarshal es'
            → Log (Broker.batch_loop (engine io crc json) name ps b t).0 es'
            → Runs ws es' ms b2)
        → Runs (batch_messages name ps b.sequence ++ ws) es ms b2
    unfolding Broker.batch_loop batch_messages
    batch_loop-Ran name [] ws b b2 t ms es code fit h rest = rest es fit h
    batch_loop-Ran name ((p, e) ∷ ps) ws b b2 t ms es (code, codes) fit h rest =
        let m = (new_message name p e b.sequence).0 in
        let b1 : Broker (LogState S) = record b {
          sequence = (new_message name p e b.sequence).1;
        } in
        let (log, same) =
          round-Logged io crc json full active held laws Good kept m b1 es code.fits
            (Logged-wal io crc json full active held laws Good kept b b1 es refl refl h) in
        Ran-publication io crc json full active held laws Good kept unmarshal
          (batch_messages name ps b1.sequence ++ ws) es m none ms b2 (inl refl)
          (subst (λ k. Runs (batch_messages name ps k ++ ws) (es ++ (publication m ∷ [])) ms b2)
            same
            (batch_loop-Ran name ps ws (write_wal (engine io crc json) m b1).0 b2
              (Topic.publish m t).0 ms (es ++ (publication m ∷ []))
              (subst (BatchEncodes io crc json unmarshal name ps) (sym same) codes)
              (AllFit-snoc io crc json full active held laws Good kept unmarshal es (publication m)
                fit ((code.fits, code.decodes), tt))
              log rest))

    batch-Ran :
        (name : Bytes) (ps : List (Option Bytes × Entropy)) (count : ℕ) (ws : List Message)
        (b b1 b2 : Broker (LogState S)) (ms : List Message) (es : List Event)
        → BatchEncodes io crc json unmarshal name ps b.sequence
        → Broker.publish_batch (engine io crc json) name ps b ≡ some (b1, count)
        → AllFit json unmarshal es
        → Log b es
        → ((es' : List Event) → AllFit json unmarshal es' → Log b1 es' → Runs ws es' ms b2)
        → Runs (batch_messages name ps b.sequence ++ ws) es ms b2
    unfolding Broker.publish_batch batch_messages put_topic count_published
    batch-Ran name [] count ws b b1 b2 ms es code runs fit h rest =
        rest es fit (
          subst (λ (x : Broker (LogState S) × ℕ). Log x.0 es) (some-value (b, 0) (b1, count) runs)
            h)
    batch-Ran name (p ∷ ps) count ws b b1 b2 ms es code runs fit h rest =
        let (b', t, opens, log, same) =
          batch-Opens io crc json full active held laws Good kept name p ps b es h in
        subst (λ k. Runs (batch_messages name (p ∷ ps) k ++ ws) es ms b2) same
          (batch_loop-Ran name (p ∷ ps) ws b' b2 t ms es
            (subst (BatchEncodes io crc json unmarshal name (p ∷ ps)) (sym same) code) fit log
            (λ es' f l. rest es' f (
              subst (λ (x : Broker (LogState S) × ℕ). Log x.0 es')
                (some-value _ (b1, count) (sym opens ∙ runs))
                (Logged-wal io crc json full active held laws Good kept _ _ es' refl refl l))))

    ack-Ran :
        (name group id : Bytes) (ws : List Message) (b b2 : Broker (LogState S)) (ms : List Message)
        (es : List Event)
        → IsFit (payload json (acknowledgement name group id))
        → AllFit json unmarshal es
        → Acknowledged io crc json full active held laws Good kept name group id es
            (Broker.ack (engine io crc json) name group id b).0
        → ((es' : List Event)
            → AllFit json unmarshal es'
            → Log (Broker.ack (engine io crc json) name group id b).0 es'
            → Runs ws es' ms b2)
        → Runs ws es ms b2
    unfolding Acknowledged publications
    ack-Ran name group id ws b b2 ms es code fit (inl h) rest =
        Ran-unheard io crc json full active held laws Good kept unmarshal ws es ms b2 es refl
          (rest es fit h)
    ack-Ran name group id ws b b2 ms es code fit (inr h) rest =
        Ran-unheard io crc json full active held laws Good kept unmarshal ws es ms b2 _
          (publications-append es (acknowledgement name group id ∷ [])
            ∙ append-nil (publications es))
          (rest _
            (AllFit-snoc io crc json full active held laws Good kept unmarshal es
              (acknowledgement name group id) fit ((code, tt), tt))
            h)

    -- A run is in the log: the messages it has returned are among those that it has written, in their
    -- order, and the log has exactly the latter.
    pub Trace-Ran :
        {ws : List Message} {b b' : Broker (LogState S)} {ms : List Message}
        → Trace io crc json unmarshal ws b ms b'
        → (es : List Event) → AllFit json unmarshal es
        → Log b es
        → Runs ws es ms b'
    unfolding Broker.publish Broker.publish_front
    Trace-Ran stays es fit h = record {
      events = es;
      log = h;
      fit = fit;
      grows = sym (append-nil (publications es));
      accepted = Sublistᴰ.slnil;
    }
    Trace-Ran (publishes name p e code runs rest) es fit h =
        publish-Ran Topic.publish name p e _ _ _ _ _ _ es code runs fit h
          (λ es' f l. Trace-Ran rest es' f l)
    Trace-Ran (publishes_front name p e code runs rest) es fit h =
        publish-Ran Topic.publish_front name p e _ _ _ _ _ _ es code runs fit h
          (λ es' f l. Trace-Ran rest es' f l)
    Trace-Ran (publishes_delayed name p delay e now code runs rest) es fit h =
        delayed-Ran name p delay e now _ _ _ _ _ _ es code runs fit h
          (λ es' f l. Trace-Ran rest es' f l)
    Trace-Ran (publishes_batch name ps count code runs rest) es fit h =
        batch-Ran name ps count _ _ _ _ _ es code runs fit h (λ es' f l. Trace-Ran rest es' f l)
    Trace-Ran (acknowledges name group id code rest) es fit h =
        ack-Ran name group id _ _ _ _ es code fit
          (ack-Logged io crc json full active held laws Good kept name group id _ es code h)
          (λ es' f l. Trace-Ran rest es' f l)
    Trace-Ran (passes e k rest) es fit h =
        Ran-unheard io crc json full active held laws Good kept unmarshal _ es _ _ es refl (
          Trace-Ran rest es fit
            (Logged-wal io crc json full active held laws Good kept _ _ es e k h))
