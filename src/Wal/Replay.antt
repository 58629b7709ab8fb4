-- ===== src/Wal/Replay.antt =====
-- internal/wal/wal.go: what Replay restores from a log file that WritePublish and WriteAck wrote, when
-- the file is whole, cut short in its last record, or damaged.
use vortexmq.Prelude.{
  ℕ, zero, suc, ◌+◌, ◌^◌, ◌≤◌, ◌<◌, Option, none, some, List, [], ◌∷◌, ◌++◌, length, take, Bytes,
  append-nil, append_assoc, length-append, ◌≡◌, ◌≢◌, refl, sym, ap, ap₂, ◌∙◌, arith,
}
use vortexmq.Message.{Message}
use vortexmq.Stream.{read_full}
use vortexmq.Wal.{
  op_publish, op_ack, restored, call_with, replay_file, replay, read_record, after_header,
  read_full, be32,
}
use vortexmq.Wal.Format.{encode, IsFit, read_record-encode, read_record-torn, read_record-damaged}

-- The two events that the broker logs.
pub data Event : Type 0 where
  publication : Message → Event
  acknowledgement : Bytes → Bytes → Bytes → Event

-- What a restart should be told: the publications, in order.
unfoldable pub publications : List Event → List Message
publications [] = []
publications (publication m ∷ es) = m ∷ publications es
publications (acknowledgement topic group id ∷ es) = publications es

module _ (json : Message → Bytes) where
  abbrev pub opcode : Event → ℕ
  opcode (publication m) = op_publish
  opcode (acknowledgement topic group id) = op_ack

  abbrev pub payload : Event → Bytes
  payload (publication m) = json m
  payload (acknowledgement topic group id) = topic ++ (b':' ∷ (group ++ (b':' ∷ id)))

  module _ (unmarshal : Bytes → Option Message) where
    -- The JSON of a published message decodes to the message.
    abbrev pub Decodes : Event → Type 0
    Decodes (publication m) = unmarshal (json m) ≡ some m
    Decodes (acknowledgement topic group id) = Unit

    -- Every record's length fits its field, and every message decodes.
    abbrev pub AllFit : List Event → Type 0
    AllFit [] = Unit
    AllFit (e ∷ es) = (IsFit (payload e) × Decodes e) × AllFit es

  module _ (crc : Bytes → ℕ) where
    abbrev pub record_of : Event → Bytes
    record_of e = encode crc (opcode e) (payload e)

    -- The file that holds these records.
    abbrev pub log : List Event → Bytes
    log [] = []
    log (e ∷ es) = record_of e ++ log es

    module _ (unmarshal : Bytes → Option Message) (crc_bound : (bs : Bytes) → crc bs < 2 ^ 32) where
      replay_file-stop :
          (fuel : ℕ) (bs : Bytes)
          → read_record crc bs ≡ none
          → replay_file crc unmarshal fuel bs ≡ []
      unfolding replay_file
      replay_file-stop zero bs e = refl
      replay_file-stop (suc fuel) bs e = rw (e, replay_file) refl

      replay_file-step :
          (fuel : ℕ) (bs body rest : Bytes)
          → read_record crc bs ≡ some (body, rest)
          → replay_file crc unmarshal (suc fuel) bs
            ≡ call_with (restored unmarshal body) (replay_file crc unmarshal fuel rest)
      unfolding replay_file
      replay_file-step fuel bs body rest e = rw (e, replay_file) refl

      restored-event :
          (e : Event) (ms : List Message)
          → Decodes unmarshal e
          → call_with (restored unmarshal (opcode e ∷ payload e)) ms ≡ publications (e ∷ []) ++ ms
      unfolding restored call_with publications
      restored-event (publication m) ms reads = ap (λ x. call_with x ms) reads
      restored-event (acknowledgement topic group id) ms reads = refl

      publications-cons :
          (e : Event) (es : List Event)
          → publications (e ∷ es) ≡ publications (e ∷ []) ++ publications es
      unfolding publications
      publications-cons (publication m) es = refl
      publications-cons (acknowledgement topic group id) es = refl

      shorter :
          (e : Event) (bs rest : Bytes) → length (bs ++ rest) < length ((record_of e ++ bs) ++ rest)
      unfolding be32
      shorter e bs rest = omega (
        arith,
        length-append bs rest,
        length-append (record_of e ++ bs) rest,
        length-append (record_of e) bs,
      )

      pub replay_file-log :
          (es : List Event) (fuel : ℕ) (rest : Bytes)
          → AllFit unmarshal es
          → length (log es ++ rest) ≤ fuel
          → read_record crc rest ≡ none
          → replay_file crc unmarshal fuel (log es ++ rest) ≡ publications es
      unfolding publications
      replay_file-log [] fuel rest fits h stop = replay_file-stop fuel rest stop
      replay_file-log (e ∷ es) zero rest fits h stop =
          absurd (omega (arith, shorter e (log es) rest))
      replay_file-log (e ∷ es) (suc fuel) rest ((fit, reads), fits) h stop =
          ap (replay_file crc unmarshal (suc fuel)) (append_assoc (record_of e) (log es) rest)
          ∙ replay_file-step fuel (record_of e ++ (log es ++ rest)) (opcode e ∷ payload e)
              (log es ++ rest)
              (read_record-encode crc crc_bound (opcode e) (payload e) (log es ++ rest) fit)
          ∙ restored-event e (replay_file crc unmarshal fuel (log es ++ rest)) reads
          ∙ ap (publications (e ∷ []) ++◌)
              (replay_file-log es fuel rest fits (omega (arith, shorter e (log es) rest)) stop)
          ∙ sym (publications-cons e es)

      -- A whole file.
      pub replay_file-whole :
          (es : List Event)
          → AllFit unmarshal es
          → replay_file crc unmarshal (length (log es)) (log es) ≡ publications es
      unfolding read_record after_header read_full
      replay_file-whole es fits =
          ap (λ bs. replay_file crc unmarshal (length bs) bs) (sym (append-nil (log es)))
          ∙ replay_file-log es (length (log es ++ [])) [] fits (omega arith) refl

      replay-one :
          (es : List Event) (rest : Bytes)
          → AllFit unmarshal es
          → read_record crc rest ≡ none
          → replay crc unmarshal (some (log es ++ rest) ∷ [])
            ≡ (length (publications es), publications es)
      unfolding replay
      replay-one es rest fits stop =
          ap (λ ms. (length ms + 0, ms ++ []))
            (replay_file-log es (length (log es ++ rest)) rest fits (omega arith) stop)
          ∙ ap₂ (λ n ms. (n, ms)) (omega arith) (append-nil (publications es))

      -- A crash that cuts the last record of a log at any byte loses that record alone: replaying the
      -- file calls back with the publications of the whole records, in order, and counts them. The
      -- acknowledgements among the records change nothing.
      pub replay-torn :
          (es : List Event) (e : Event) (k : ℕ)
          → AllFit unmarshal es
          → IsFit (payload e)
          → k < length (record_of e)
          → replay crc unmarshal (some (log es ++ take k (record_of e)) ∷ [])
            ≡ (length (publications es), publications es)
      replay-torn es e k fits fit h =
          replay-one es (take k (record_of e)) fits
            (read_record-torn crc crc_bound (opcode e) (payload e) k fit h)

      -- Replaying a log stops at a record whose checksum is not that of its body, with the
      -- publications before it, whatever the rest of the file holds.
      pub replay-damaged :
          (es : List Event) (c : ℕ) (body rest : Bytes)
          → AllFit unmarshal es
          → 0 < length body
          → 8 + length body < 2 ^ 32
          → c < 2 ^ 32
          → crc body ≢ c
          → replay crc unmarshal
              (some (log es ++ ((be32 (8 + length body) ++ be32 c) ++ (body ++ rest))) ∷ [])
            ≡ (length (publications es), publications es)
      replay-damaged es c body rest fits some_body h hc e =
          replay-one es ((be32 (8 + length body) ++ be32 c) ++ (body ++ rest)) fits
            (read_record-damaged crc crc_bound c body rest some_body h hc e)
