-- ===== src/Program/Calls.antt =====
-- internal/queue/broker.go over internal/wal/wal.go: what one call on a broker with an open log leaves
-- in the files.
use mathlib.Core.Option
use vortexmq.Prelude.{
  ℕ, Bool, true, false, Option, none, some, Option-cases, List, [], ◌∷◌, ◌++◌, Bytes, lookup, inl,
  inr, ◌⊎◌, if◌then◌else◌, ◌≡◌, refl, ap, ◌∙◌,
}
use vortexmq.Int.{ℤ}
use vortexmq.Message.{Message, Entropy, new_message}
use vortexmq.Topic
use vortexmq.Topic.{Topic}
use vortexmq.Broker
use vortexmq.Broker.{
  Broker, put_topic, get_or_create_topic, created, count_published, answered, write_wal, submit,
  write_ack, acked,
}
use vortexmq.Wal.{Wal, Storage}
use vortexmq.Wal.Format.{IsFit}
use vortexmq.Wal.Durable.{IsStorage}
use vortexmq.Wal.Replay.{Event, publication, acknowledgement, payload}
use vortexmq.Recovery.Order.{new_topic}
use vortexmq.Program.{LogState, running}
use vortexmq.Program.Logging.{
  engine, IsKept, Logged, Logged-wal, logs-one, write_wal-running, write_ack-running,
  write_ack-live,
}

-- What GetOrCreateTopic leaves alone, and that it does not panic.
pub record Opens {W : Type 0} (name : Bytes) (b : Broker W) : Type 0 where
  pub broker : Broker W
  pub topic : Topic
  pub runs : get_or_create_topic name b ≡ some (broker, topic)
  pub same_wal : broker.wal ≡ b.wal
  pub same_sequence : broker.sequence ≡ b.sequence
  pub same_closed : broker.closed ≡ b.closed

pub get_or_create_topic-Opens : {W : Type 0} (name : Bytes) (b : Broker W) → Opens name b
unfolding put_topic get_or_create_topic
get_or_create_topic-Opens name b = elim (Option-cases (lookup name b.topics)) [
  | inl e ↦ record {
    broker = put_topic name (new_topic name).0 b;
    topic = (new_topic name).0;
    runs =
        rw (e, get_or_create_topic)
          (ap (Option.map (λ t. (put_topic name t b, t))) (new_topic name).1);
    same_wal = refl;
    same_sequence = refl;
    same_closed = refl;
  }
  | inr (t, e) ↦ record {
    broker = b;
    topic = t;
    runs = rw (e, get_or_create_topic) refl;
    same_wal = refl;
    same_sequence = refl;
    same_closed = refl;
  }
]

module _ {S : Type 0} (io : Storage S) (crc : Bytes → ℕ) (json : Message → Bytes)
    (full : S → List Bytes) (active held : S → Bytes) (laws : IsStorage io full active held)
    (Good : Wal → S → Type 0) (kept : IsKept io crc json Good) where
  abbrev Log : Broker (LogState S) → List Event → Type 0
  Log = Logged io crc json full active held laws Good kept

  -- The topic's part does not touch the log, and the answer is the message or none.
  answered-keeps :
      (name : Bytes) (m : Message) (r : Topic × Bool) (b : Broker (LogState S))
      → ((answered name m r b).0.wal ≡ b.wal)
        × ((answered name m r b).0.closed ≡ b.closed)
        × (((answered name m r b).1 ≡ none) ⊎ ((answered name m r b).1 ≡ some m))
  unfolding answered count_published put_topic
  answered-keeps name m (t, true) b = (refl, refl, inr refl)
  answered-keeps name m (t, false) b = (refl, refl, inl refl)

  submit-Logged :
      (enqueue : Message → Topic → Topic × Bool) (name : Bytes) (b : Broker (LogState S))
      (t : Topic) (m : Message) (es : List Event)
      → IsFit (json m)
      → Log b es
      → (b' : Broker (LogState S)) × (r : Option Message) × (submit
            (engine io crc json)
            enqueue
            name
            (b, t, m)
          ≡ (b', r))
        × Log b' (es ++ (publication m ∷ []))
        × ((r ≡ none) ⊎ (r ≡ some m))
  unfolding submit
  submit-Logged enqueue name b t m es fit h =
      let (l, l', is_wal, runs, after) =
        logs-one io crc json full active held laws Good kept b es (publication m) fit h in
      let b1 : Broker (LogState S) = record b { wal = some (running l'.0 l'.1) } in
      let (keeps, same, answer) = answered-keeps name m (enqueue m t) b1 in
      (
        (answered name m (enqueue m t) b1).0,
        (answered name m (enqueue m t) b1).1,
        ap
            (λ (r : Broker (LogState S) × Bool).
              if r.1 then answered name m (enqueue m t) r.0 else (r.0, none))
            (write_wal-running io crc json full active held laws Good kept m b l.0 l'.0 l.1 l'.1
              is_wal runs),
        after (answered name m (enqueue m t) b1).0 keeps same,
        answer,
      )

  created-some :
      (name : Bytes) (p : Option Bytes) (e : Entropy) (b : Broker (LogState S))
      → (b' : Broker (LogState S)) × (t : Topic) × (created name p e b
          ≡ some (b', t, (new_message name p e b.sequence).0))
        × (b'.wal ≡ b.wal)
        × (b'.closed ≡ b.closed)
  unfolding created
  created-some name p e b =
      let o = get_or_create_topic-Opens name b in
      (
        record o.broker { sequence = (new_message name p e b.sequence).1 },
        o.topic,
        ap
              (λ (r : Option (Broker (LogState S) × Topic)).
                Option.map
                  (λ r. (
                    record r.0 { sequence = (new_message name p e r.0.sequence).1 },
                    r.1,
                    (new_message name p e r.0.sequence).0,
                  ))
                  r)
              o.runs
            ∙ ap
                (λ n. some (
                  record o.broker { sequence = (new_message name p e n).1 },
                  o.topic,
                  (new_message name p e n).0,
                ))
                o.same_sequence,
        o.same_wal,
        o.same_closed,
      )

  -- A publication, in front or behind: its message is logged, whatever its topic answers.
  pub publication-Logged :
      (enqueue : Message → Topic → Topic × Bool) (name : Bytes) (p : Option Bytes) (e : Entropy)
      (b : Broker (LogState S)) (es : List Event)
      → IsFit (json (new_message name p e b.sequence).0)
      → Log b es
      → (b' : Broker (LogState S)) × (r : Option Message) × (Option.map
            (submit (engine io crc json) enqueue name)
            (created name p e b)
          ≡ some (b', r))
        × Log b' (es ++ (publication (new_message name p e b.sequence).0 ∷ []))
        × ((r ≡ none) ⊎ (r ≡ some (new_message name p e b.sequence).0))
  publication-Logged enqueue name p e b es fit h =
      let (b1, t, made, keeps, same) = created-some name p e b in
      let (b2, r, runs, after, answer) =
        submit-Logged enqueue name b1 t (new_message name p e b.sequence).0 es fit
          (Logged-wal io crc json full active held laws Good kept b b1 es keeps same h) in
      (
        b2,
        r,
        ap (Option.map (submit (engine io crc json) enqueue name)) made ∙ ap some runs,
        after,
        answer,
      )

  -- A delayed publication is logged as any other, before its topic stamps it.
  pub delayed-Logged :
      (name : Bytes) (p : Option Bytes) (delay : ℤ) (e : Entropy) (now : ℤ)
      (b : Broker (LogState S)) (es : List Event)
      → IsFit (json (new_message name p e b.sequence).0)
      → Log b es
      → (b' : Broker (LogState S)) × (r : Option Message) × (Broker.publish_delayed
            (engine io crc json)
            name
            p
            delay
            e
            now
            b
          ≡ some (b', r))
        × Log b' (es ++ (publication (new_message name p e b.sequence).0 ∷ []))
  unfolding Broker.publish_delayed
  delayed-Logged name p delay e now b es fit h =
      let (b1, t, made, keeps, same) = created-some name p e b in
      let (b2, r, runs, after, answer) =
        submit-Logged (λ m t. (Topic.publish_delayed m delay now t, true)) name b1 t
          (new_message name p e b.sequence).0 es fit
          (Logged-wal io crc json full active held laws Good kept b b1 es keeps same h) in
      (
        b2,
        Option.map (Broker.stamped (engine io crc json) delay now) r,
        ap
              (Option.map (λ x.
                let (b', m) =
                  submit (engine io crc json) (λ m t. (Topic.publish_delayed m delay now t, true))
                    name x in
                (b', Option.map (Broker.stamped (engine io crc json) delay now) m)))
              made
            ∙ ap
                (λ (x : Broker (LogState S) × Option Message).
                  some (x.0, Option.map (Broker.stamped (engine io crc json) delay now) x.1))
                runs,
        after,
      )

  -- The log after an acknowledgement, where it has succeeded and where it has not.
  unfoldable pub Acknowledged : Bytes → Bytes → Bytes → List Event → Broker (LogState S) → Type 0
  Acknowledged name group id es b = Log b es ⊎ Log b (es ++ (acknowledgement name group id ∷ []))

  acked-Logged :
      (name group id : Bytes) (r : Topic × Bool) (b : Broker (LogState S)) (es : List Event)
      → IsFit (payload json (acknowledgement name group id))
      → Log b es
      → Acknowledged name group id es (acked (engine io crc json) name group id r b).0
  unfolding Acknowledged acked put_topic
  acked-Logged name group id (t, false) b es fit h =
      inl (Logged-wal io crc json full active held laws Good kept b _ es refl refl h)
  acked-Logged name group id (t, true) b es fit h =
      let (l, l', is_wal, runs, after) =
        logs-one io crc json full active held laws Good kept b es (acknowledgement name group id)
          fit h in
      inr (
        after _
          (write_ack-running io crc json full active held laws Good kept name group id _ l.0 l'.0
            l.1 l'.1 is_wal runs)
          (write_ack-live io crc json full active held laws Good kept name group id _))

  pub ack-Logged :
      (name group id : Bytes) (b : Broker (LogState S)) (es : List Event)
      → IsFit (payload json (acknowledgement name group id))
      → Log b es
      → Acknowledged name group id es (Broker.ack (engine io crc json) name group id b).0
  unfolding Broker.ack Acknowledged
  ack-Logged name group id b es fit h = elim (Option-cases (lookup name b.topics)) [
    | inl e ↦ rw (e, Broker.ack) (inl h)
    | inr (t, e) ↦ rw (e, Broker.ack) (acked-Logged name group id (Topic.ack group id t) b es fit h)
  ]
