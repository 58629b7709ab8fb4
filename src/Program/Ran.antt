-- ===== src/Program/Ran.antt =====
-- internal/queue/broker.go over internal/wal/wal.go: what a run of calls on a broker with an open log
-- leaves in the files.
use mathlib.Core.List.{Sublistᴰ}
use vortexmq.Prelude.{
  ℕ, Option, none, some, some-value, List, [], ◌∷◌, ◌++◌, Bytes, inl, inr, ◌⊎◌, append_assoc, ◌≡◌,
  refl, sym, ap, ◌∙◌, subst,
}
use vortexmq.Message.{Message}
use vortexmq.Broker.{Broker}
use vortexmq.Wal.{Wal, Storage}
use vortexmq.Wal.Durable.{IsStorage}
use vortexmq.Wal.Replay.{Event, publication, publications, AllFit}
use vortexmq.Wal.Restart.{publications-append}
use vortexmq.Program.{LogState}
use vortexmq.Program.Logging.{Logged, IsKept}
use vortexmq.Program.Trace.{and_then}

module _ {S : Type 0} (io : Storage S) (crc : Bytes → ℕ) (json : Message → Bytes)
    (full : S → List Bytes) (active held : S → Bytes) (laws : IsStorage io full active held)
    (Good : Wal → S → Type 0) (kept : IsKept io crc json Good) where
  -- The names of the logging of calls, with this section's parameters.
  abbrev Log : Broker (LogState S) → List Event → Type 0
  Log = Logged io crc json full active held laws Good kept

  module _ (unmarshal : Bytes → Option Message) where
    -- What a run has logged behind the events `es`.
    pub record Ran (written : List Message) (es : List Event) (ms : List Message)
        (b : Broker (LogState S)) : Type 0 where
      pub events : List Event
      pub log : Log b events
      pub fit : AllFit json unmarshal events
      pub grows : publications events ≡ publications es ++ written
      pub accepted : Sublistᴰ ms written

    pub AllFit-snoc :
        (es : List Event) (e : Event)
        → AllFit json unmarshal es
        → AllFit json unmarshal (e ∷ [])
        → AllFit json unmarshal (es ++ (e ∷ []))
    AllFit-snoc [] e h k = k
    AllFit-snoc (x ∷ es) e (f, h) k = (f, AllFit-snoc es e h k)

    and_then-Sublist :
        (r : Option Message) (m : Message) (ms written : List Message)
        → (r ≡ none) ⊎ (r ≡ some m)
        → Sublistᴰ ms written
        → Sublistᴰ (and_then r ms) (m ∷ written)
    and_then-Sublist r m ms written (inl e) s =
        subst (λ r. Sublistᴰ (and_then r ms) (m ∷ written)) (sym e) (Sublistᴰ.cons s)
    and_then-Sublist r m ms written (inr e) s =
        subst (λ r. Sublistᴰ (and_then r ms) (m ∷ written)) (sym e) (Sublistᴰ.cons-cons refl s)

    -- A publication in front of a run.
    pub Ran-publication :
        (ws : List Message) (es : List Event) (m : Message) (r : Option Message) (ms : List Message)
        (b : Broker (LogState S))
        → (r ≡ none) ⊎ (r ≡ some m)
        → Ran ws (es ++ (publication m ∷ [])) ms b
        → Ran (m ∷ ws) es (and_then r ms) b
    unfolding publications
    Ran-publication ws es m r ms b answer ran = record {
      events = ran.events;
      log = ran.log;
      fit = ran.fit;
      grows =
          ran.grows
          ∙ ap (λ x. x ++ ws) (publications-append es (publication m ∷ []))
          ∙ append_assoc (publications es) (m ∷ []) ws;
      accepted = and_then-Sublist r m ms ws answer ran.accepted;
    }

    -- A call that writes no message, in front of a run.
    pub Ran-unheard :
        (ws : List Message) (es : List Event) (ms : List Message) (b : Broker (LogState S))
        (es' : List Event)
        → publications es' ≡ publications es
        → Ran ws es' ms b
        → Ran ws es ms b
    Ran-unheard ws es ms b es' e ran = record {
      events = ran.events;
      log = ran.log;
      fit = ran.fit;
      grows = ran.grows ∙ ap (λ x. x ++ ws) e;
      accepted = ran.accepted;
    }

    -- A call's own equation gives the broker and the answer that the log is known for.
    pub Logged-same :
        (es : List Event) (m : Message) (x b : Broker (LogState S)) (y r : Option Message)
        (o : Option (Broker (LogState S) × Option Message))
        → o ≡ some (x, y)
        → o ≡ some (b, r)
        → Log x es
        → (y ≡ none) ⊎ (y ≡ some m)
        → Log b es × ((r ≡ none) ⊎ (r ≡ some m))
    Logged-same es m x b y r o e e' h answer =
        subst
          (λ (p : Broker (LogState S) × Option Message).
            Log p.0 es × ((p.1 ≡ none) ⊎ (p.1 ≡ some m)))
          (some-value (x, y) (b, r) (sym e ∙ e')) (h, answer)
