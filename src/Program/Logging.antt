-- ===== src/Program/Logging.antt =====
-- internal/queue/broker.go over internal/wal/wal.go: one record of an open log, as the broker has it
-- written.
use vortexmq.Prelude.{
  ℕ, Bool, true, false, some, Option-cases, List, [], ◌∷◌, ◌++◌, Bytes, inl, inr, ◌≡◌, refl, ap,
  ◌∙◌,
}
use vortexmq.Message.{Message}
use vortexmq.Broker
use vortexmq.Broker.{
  Broker, put_topic, get_or_create_topic, created, count_published, answered, write_wal, submit,
  write_ack, acked,
}
use vortexmq.Wal.{Wal, Storage}
use vortexmq.Wal.Format.{IsFit}
use vortexmq.Wal.Durable.{IsStorage}
use vortexmq.Wal.Replay.{Event, publication, acknowledgement, payload}
use vortexmq.Wal.Restart.{all, HoldsEvents, log-one, logged}
use vortexmq.Program.{LogState, running, called, engine_publish, engine_ack, wal_engine}

module _ {S : Type 0} (io : Storage S) (crc : Bytes → ℕ) (json : Message → Bytes) where
  abbrev pub engine : Broker.BrokerWal (LogState S)
  engine = wal_engine io crc (λ m. some (json m))

  -- A property of the open log that every call that succeeds keeps.
  abbrev pub IsKept : (Wal → S → Type 0) → Type 0
  IsKept Good =
      (e : Event) (w w' : Wal) (s s' : S)
      → logged json crc io e w s ≡ some (w', s', true)
      → Good w s
      → Good w' s'

module _ {S : Type 0} (io : Storage S) (crc : Bytes → ℕ) (json : Message → Bytes)
    (full : S → List Bytes) (active held : S → Bytes) (laws : IsStorage io full active held)
    (Good : Wal → S → Type 0) (kept : IsKept io crc json Good) where
  -- The broker runs, its log is open, and the log's files hold these events.
  pub record Logged (b : Broker (LogState S)) (es : List Event) : Type 0 where
    pub wal : Wal
    pub disk : S
    pub segments : List (List Event)
    pub file : List Event
    pub is_wal : b.wal ≡ some (running wal disk)
    pub holds : HoldsEvents json crc io full active held laws wal disk segments file
    pub is_all : all segments file ≡ es
    pub live : b.closed ≡ false
    pub is_good : Good wal disk

  -- Only the log counts, and that the broker runs.
  pub Logged-wal :
      (b b' : Broker (LogState S)) (es : List Event)
      → b'.wal ≡ b.wal
      → b'.closed ≡ b.closed
      → Logged b es
      → Logged b' es
  Logged-wal b b' es e k h = record {
    wal = h.wal;
    disk = h.disk;
    segments = h.segments;
    file = h.file;
    is_wal = e ∙ h.is_wal;
    holds = h.holds;
    is_all = h.is_all;
    live = k ∙ h.live;
    is_good = h.is_good;
  }

  -- A call that logs an event of a length that fits.
  pub logs-one :
      (b : Broker (LogState S)) (es : List Event) (e : Event)
      → IsFit (payload json e)
      → Logged b es
      → (l : Wal × S) × (l' : Wal × S) × (b.wal ≡ some (running l.0 l.1))
        × (logged json crc io e l.0 l.1 ≡ some (l'.0, l'.1, true))
        × ((b' : Broker (LogState S))
            → b'.wal ≡ some (running l'.0 l'.1)
            → b'.closed ≡ b.closed
            → Logged b' (es ++ (e ∷ [])))
  logs-one b es e fit h =
      let (w, s, segments, file, runs, holds, grows) =
        log-one json crc io full active held laws e h.wal h.disk h.segments h.file fit h.holds in
      (
        (h.wal, h.disk),
        (w, s),
        h.is_wal,
        runs,
        λ b' p k. record {
          wal = w;
          disk = s;
          segments = segments;
          file = file;
          is_wal = p;
          holds = holds;
          is_all = grows ∙ ap (λ x. x ++ (e ∷ [])) h.is_all;
          live = k ∙ h.live;
          is_good = kept e h.wal w h.disk s runs h.is_good;
        },
      )

  pub write_wal-running :
      (m : Message) (b : Broker (LogState S)) (w w' : Wal) (s s' : S)
      → b.wal ≡ some (running w s)
      → logged json crc io (publication m) w s ≡ some (w', s', true)
      → write_wal (engine io crc json) m b ≡ (record b { wal = some (running w' s') }, true)
  unfolding write_wal engine_publish called logged
  write_wal-running m b w w' s s' e runs =
      rw (e, write_wal)
        (ap (λ (r : LogState S × Bool). (record b { wal = some r.0 }, r.1)) (ap called runs))

  pub write_ack-running :
      (topic group id : Bytes) (b : Broker (LogState S)) (w w' : Wal) (s s' : S)
      → b.wal ≡ some (running w s)
      → logged json crc io (acknowledgement topic group id) w s ≡ some (w', s', true)
      → (write_ack (engine io crc json) topic group id b).wal ≡ some (running w' s')
  unfolding write_ack engine_ack called logged
  write_ack-running topic group id b w w' s s' e runs =
      rw (e, write_ack) (ap (λ (r : LogState S × Bool). some r.0) (ap called runs))

  pub write_ack-live :
      (topic group id : Bytes) (b : Broker (LogState S))
      → (write_ack (engine io crc json) topic group id b).closed ≡ b.closed
  unfolding write_ack
  write_ack-live topic group id b = elim (Option-cases b.wal) [
    | inl e ↦ rw (e, write_ack) refl
    | inr (w, e) ↦ rw (e, write_ack) refl
  ]
