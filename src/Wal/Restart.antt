-- ===== src/Wal/Restart.antt =====
-- internal/wal/wal.go: a run of WritePublish and WriteAck calls on an open log, over any number of
-- segments, followed by Replay on the files that it left.
use vortexmq.Prelude.{
  ℕ, ◌+◌, ◌^◌, ◌<◌, Bool, true, false, Option, none, some, List, [], ◌∷◌, ◌++◌, map, length, Bytes,
  append-nil, append_assoc, length-append, inl, inr, ◌≡◌, refl, sym, ap, ap₂, ◌∙◌, subst, arith,
}
use vortexmq.Message.{Message}
use vortexmq.Wal.{Wal, Storage, write_record, write_publish, write_ack, replay, close}
use vortexmq.Wal.Format.{IsFit}
use vortexmq.Wal.Durable.{IsStorage, Keeps, Succeeds, write_record-Succeeds, close-files}
use vortexmq.Wal.Replay.{
  Event, publication, acknowledgement, publications, opcode, payload, record_of, log, AllFit,
  replay_file-whole,
}

-- Records spread over finished segments and the open one, in one list.
unfoldable pub all : List (List Event) → List Event → List Event
all [] file = file
all (segment ∷ segments) file = segment ++ all segments file

all-snoc :
    (segments : List (List Event)) (file : List Event) (e : Event)
    → all segments (file ++ (e ∷ [])) ≡ all segments file ++ (e ∷ [])
unfolding all
all-snoc [] file e = refl
all-snoc (segment ∷ segments) file e =
    ap (segment ++◌) (all-snoc segments file e)
    ∙ sym (append_assoc segment (all segments file) (e ∷ []))

all-rotate :
    (segments : List (List Event)) (file : List Event)
    → all (segments ++ (file ∷ [])) [] ≡ all segments file
unfolding all
all-rotate [] file = append-nil file
all-rotate (segment ∷ segments) file = ap (segment ++◌) (all-rotate segments file)

pub publications-append :
    (a b : List Event) → publications (a ++ b) ≡ publications a ++ publications b
unfolding publications
publications-append [] b = refl
publications-append (publication m ∷ a) b = ap (◌∷◌ m) (publications-append a b)
publications-append (acknowledgement topic group id ∷ a) b = publications-append a b

map_append : {A B : Type 0} (f : A → B) (xs ys : List A) → map f (xs ++ ys) ≡ map f xs ++ map f ys
map_append f [] ys = refl
map_append f (x ∷ xs) ys = ap (◌∷◌ (f x)) (map_append f xs ys)

module _ (json : Message → Bytes) (crc : Bytes → ℕ) where
  log-append : (a b : List Event) → log json crc (a ++ b) ≡ log json crc a ++ log json crc b
  log-append [] b = refl
  log-append (e ∷ a) b =
      ap (record_of json crc e ++◌) (log-append a b)
      ∙ sym (append_assoc (record_of json crc e) (log json crc a) (log json crc b))

  log-snoc :
      (file : List Event) (e : Event)
      → log json crc (file ++ (e ∷ [])) ≡ log json crc file ++ record_of json crc e
  log-snoc file e =
      log-append file (e ∷ []) ∙ ap (log json crc file ++◌) (append-nil (record_of json crc e))

  module _ (unmarshal : Bytes → Option Message) where
    AllFit-append :
        (a b : List Event)
        → AllFit json unmarshal (a ++ b)
        → AllFit json unmarshal a × AllFit json unmarshal b
    AllFit-append [] b h = (tt, h)
    AllFit-append (e ∷ a) b (f, h) = let (p, q) = AllFit-append a b h in ((f, p), q)

    module _ (crc_bound : (bs : Bytes) → crc bs < 2 ^ 32) where
      pub replay-all :
          (segments : List (List Event)) (file : List Event)
          → AllFit json unmarshal (all segments file)
          → replay crc unmarshal
              (map some (map (log json crc) segments ++ (log json crc file ∷ [])))
            ≡ (length (publications (all segments file)), publications (all segments file))
      unfolding replay all
      replay-all [] file h =
          ap (λ ms. (length ms + 0, ms ++ []))
            (replay_file-whole json crc unmarshal crc_bound file h)
          ∙ ap₂ (λ n ms. (n, ms)) (omega arith) (append-nil (publications file))
      replay-all (segment ∷ segments) file h =
          let (p, q) = AllFit-append segment (all segments file) h in
          ap₂ (λ ms r. (length ms + r.0, ms ++ r.1))
            (replay_file-whole json crc unmarshal crc_bound segment p) (replay-all segments file q)
          ∙ ap (λ n. (n, a ++ b)) (sym (length-append a b))
          ∙ ap (λ ms. (length ms, ms)) (sym (publications-append segment (all segments file)))
        where
          a : List Message
          a = publications segment

          b : List Message
          b = publications (all segments file)

  module _ {ℓ} {S : Type ℓ} (io : Storage S) where
    -- The call that logs an event.
    unfoldable pub logged : Event → Wal → S → Option (Wal × S × Bool)
    logged (publication m) w s = write_publish io crc (λ x. some (json x)) m w s
    logged (acknowledgement topic group id) w s = write_ack io crc topic group id w s

    unfoldable pub log_rest :
        (Wal → S → Option (Wal × S)) → Option (Wal × S × Bool) → Option (Wal × S)
    log_rest f none = none
    log_rest f (some (w, s, false)) = none
    log_rest f (some (w, s, true)) = f w s

    -- A run of such calls; `none` if one of them fails.
    unfoldable pub log_all : List Event → Wal → S → Option (Wal × S)
    log_all [] w s = some (w, s)
    log_all (e ∷ es) w s = log_rest (log_all es) (logged e w s)

    module _ (full : S → List Bytes) (active held : S → Bytes)
        (laws : IsStorage io full active held) where
      -- The files hold these records.
      abbrev pub HoldsEvents : Wal → S → List (List Event) → List Event → Type 0
      HoldsEvents w s segments file =
          Keeps io full active held w s (map (log json crc) segments) (log json crc file)

      logged_lem :
          (e : Event) (w : Wal) (s : S)
          → logged e w s ≡ write_record io crc (opcode json e) (payload json e) w s
      unfolding logged write_publish write_ack
      logged_lem (publication m) w s = refl
      logged_lem (acknowledgement topic group id) w s = refl

      logged-Succeeds :
          (e : Event) (w : Wal) (s : S) (segments : List (List Event)) (file : List Event)
          → IsFit (payload json e)
          → HoldsEvents w s segments file
          → Succeeds io full active held laws
              (logged e w s)
              (map (log json crc) segments)
              (log json crc (file ++ (e ∷ [])))
      logged-Succeeds e w s segments file fit h =
          subst (λ r. Succeeds io full active held laws r files (log json crc (file ++ (e ∷ []))))
            (sym (logged_lem e w s))
            (subst
              (Succeeds io full active held laws
                (write_record io crc (opcode json e) (payload json e) w s) files)
              (sym (log-snoc file e))
              (write_record-Succeeds io full active held laws crc (opcode json e) (payload json e) w
                s files (log json crc file) fit h))
        where
          files : List Bytes
          files = map (log json crc) segments

      -- One call: the event is the last of the open file, or of a segment that it completes.
      pub log-one :
          (e : Event) (w : Wal) (s : S) (segments : List (List Event)) (file : List Event)
          → IsFit (payload json e)
          → HoldsEvents w s segments file
          → (w' : Wal) × (s' : S) × (segments' : List (List Event)) × (file' : List Event) × (logged
                e w s
              ≡ some (w', s', true))
            × HoldsEvents w' s' segments' file'
            × (all segments' file' ≡ all segments file ++ (e ∷ []))
      unfolding all
      log-one e w s segments file fit h =
          let (w', s', runs, kept) = logged-Succeeds e w s segments file fit h in
          elim kept [
            | inl k ↦ (w', s', segments, file ++ (e ∷ []), runs, k, all-snoc segments file e)
            | inr k ↦ (
              w',
              s',
              segments ++ ((file ++ (e ∷ [])) ∷ []),
              [],
              runs,
              subst (λ x. Keeps io full active held w' s' x [])
                  (sym (map_append (log json crc) segments ((file ++ (e ∷ [])) ∷ []))) k,
              all-rotate segments (file ++ (e ∷ [])) ∙ all-snoc segments file e,
            )
          ]

      module _ (unmarshal : Bytes → Option Message) where
        log_all-HoldsEvents :
            (es : List Event) (w : Wal) (s : S) (segments : List (List Event)) (file : List Event)
            → AllFit json unmarshal es
            → HoldsEvents w s segments file
            → (w' : Wal) × (s' : S) × (segments' : List (List Event)) × (file' : List Event)
              × (log_all es w s ≡ some (w', s'))
              × HoldsEvents w' s' segments' file'
              × (all segments' file' ≡ all segments file ++ es)
        unfolding log_all log_rest
        log_all-HoldsEvents [] w s segments file fits h =
            (w, s, segments, file, refl, h, sym (append-nil (all segments file)))
        log_all-HoldsEvents (e ∷ es) w s segments file ((fit, reads), fits) h =
            let (w1, s1, segments1, file1, runs, h1, grows) = log-one e w s segments file fit h in
            let (w2, s2, segments2, file2, runs2, h2, grows2) =
              log_all-HoldsEvents es w1 s1 segments1 file1 fits h1 in
            (
              w2,
              s2,
              segments2,
              file2,
              ap (log_rest (log_all es)) runs ∙ runs2,
              h2,
              grows2 ∙ ap (λ x. x ++ es) grows ∙ append_assoc (all segments file) (e ∷ []) es,
            )

        pub replay-log_all :
            (crc_bound : (bs : Bytes) → crc bs < 2 ^ 32) (es : List Event) (w : Wal) (s : S)
            → AllFit json unmarshal es
            → Keeps io full active held w s [] []
            → (w' : Wal) × (s' : S) × (log_all es w s ≡ some (w', s'))
              × (replay crc unmarshal
                    (map some (full (close io w' s').1 ++ (active (close io w' s').1 ∷ [])))
                  ≡ (length (publications es), publications es))
        unfolding all
        replay-log_all crc_bound es w s fits h =
            let (w', s', segments, file, runs, h', same) =
              log_all-HoldsEvents es w s [] [] fits h in
            let (f, a) = close-files io full active held laws w' s' _ _ h' in
            (
              w',
              s',
              runs,
              ap₂ (λ a b. replay crc unmarshal (map some (a ++ (b ∷ [])))) f a
                  ∙ replay-all unmarshal crc_bound segments file
                      (subst (AllFit json unmarshal) (sym same) fits)
                  ∙ ap (λ x. (length (publications x), publications x)) same,
            )
