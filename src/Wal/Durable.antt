-- ===== src/Wal/Durable.antt =====
-- internal/wal/wal.go: the records that WritePublish and WriteAck send to the files, over any number of
-- segments, and what Replay makes of the files.
use mathlib.Core.Option
use vortexmq.Prelude.{
  ℕ, suc, ◌+◌, Bool, true, false, Option, some, List, [], ◌∷◌, ◌++◌, length, Bytes, length-append,
  append-nil, Bool-cases, inl, inr, ◌⊎◌, if-true, if-false, if◌then◌else◌, ◌≡◌, sym, ap, ap₂, ◌∙◌,
  subst, arith,
}
use vortexmq.Int.{pos, ◌+ℤ◌, wrap64, leb_ℤ}
use vortexmq.Wal.{
  Wal, Storage, FsyncPolicy, every_sec, always, never, written, rotate_segment, flush_by,
  write_record, close,
}
use vortexmq.Wal.Format.{encode, IsFit, frame_fit}

-- What the log relies on in bufio.Writer and in the file system, for a directory that this process alone
-- writes. `full` has the contents of the finished segments' files in order, `active` those of the open
-- file, and `held` what the writer's buffer keeps back. A write goes to the buffer, of which any part may
-- go on to the file; closing a file loses what is held for it, and a new segment's file is empty.
pub record IsStorage {ℓ} {S : Type ℓ} (io : Storage S) (full : S → List Bytes)
    (active held : S → Bytes) : Type ℓ where
  pub write-all : (bs : Bytes) (s : S) → (io.write bs s).1 ≡ some (length bs)
  pub full-write : (bs : Bytes) (s : S) → full (io.write bs s).0 ≡ full s
  pub active-write :
      (bs : Bytes) (s : S)
      → active (io.write bs s).0 ++ held (io.write bs s).0 ≡ (active s ++ held s) ++ bs
  pub full-flush : (s : S) → full (io.flush s) ≡ full s
  pub active-flush : (s : S) → active (io.flush s) ≡ active s ++ held s
  pub held-flush : (s : S) → held (io.flush s) ≡ []
  pub full-sync : (s : S) → full (io.sync_file s) ≡ full s
  pub active-sync : (s : S) → active (io.sync_file s) ≡ active s
  pub held-sync : (s : S) → held (io.sync_file s) ≡ held s
  pub full-close : (s : S) → full (io.close_file s).0 ≡ full s
  pub active-close : (s : S) → active (io.close_file s).0 ≡ active s
  pub full-open :
      (n : ℕ) (s : S)
      → n ≡ suc (suc (length (full s)))
      → full (io.open_segment n (io.close_file s).0).0 ≡ full s ++ (active s ∷ [])
  pub active-open :
      (n : ℕ) (s : S)
      → n ≡ suc (suc (length (full s)))
      → active (io.open_segment n (io.close_file s).0).0 ≡ []
  pub held-open :
      (n : ℕ) (s : S) → held s ≡ [] → held (io.open_segment n (io.close_file s).0).0 ≡ []

module _ {ℓ} {S : Type ℓ} (io : Storage S) (full : S → List Bytes) (active held : S → Bytes) where
  -- The log is open, its segments are numbered from 1, and the files with the buffer hold these.
  pub record Keeps (w : Wal) (s : S) (segments : List Bytes) (file : Bytes) : Type 0 where
    pub is_open : w.closed ≡ false
    pub numbered : w.segment_id ≡ suc (length segments)
    pub segments_lem : full s ≡ segments
    pub file_lem : active s ++ held s ≡ file

  module _ (laws : IsStorage io full active held) where
    -- After a flush the open file has all that was written to it.
    whole-flush : (s : S) → active (io.flush s) ++ held (io.flush s) ≡ active s ++ held s
    whole-flush s =
        ap₂ (λ a b. a ++ b) (laws.active-flush s) (laws.held-flush s)
        ∙ append-nil (active s ++ held s)

    flush-Keeps :
        (w : Wal) (s : S) (segments : List Bytes) (file : Bytes)
        → Keeps w s segments file
        → Keeps w (io.flush s) segments file
    flush-Keeps w s segments file h = record {
      is_open = h.is_open;
      numbered = h.numbered;
      segments_lem = laws.full-flush s ∙ h.segments_lem;
      file_lem = whole-flush s ∙ h.file_lem;
    }

    sync-Keeps :
        (w : Wal) (s : S) (segments : List Bytes) (file : Bytes)
        → Keeps w s segments file
        → Keeps w (io.sync_file s) segments file
    sync-Keeps w s segments file h = record {
      is_open = h.is_open;
      numbered = h.numbered;
      segments_lem = laws.full-sync s ∙ h.segments_lem;
      file_lem = ap₂ (λ a b. a ++ b) (laws.active-sync s) (laws.held-sync s) ∙ h.file_lem;
    }

    pub synced-held : (s : S) → held (io.sync_file (io.flush s)) ≡ []
    synced-held s = laws.held-sync (io.flush s) ∙ laws.held-flush s

    -- A flush and a Sync bring everything to the files.
    pub synced-files :
        (w : Wal) (s : S) (segments : List Bytes) (file : Bytes)
        → Keeps w s segments file
        → (full (io.sync_file (io.flush s)) ≡ segments)
          × (active (io.sync_file (io.flush s)) ≡ file)
    synced-files w s segments file h = (
      laws.full-sync (io.flush s) ∙ laws.full-flush s ∙ h.segments_lem,
      laws.active-sync (io.flush s) ∙ laws.active-flush s ∙ h.file_lem,
    )

    -- So does `Close`.
    pub close-files :
        (w : Wal) (s : S) (segments : List Bytes) (file : Bytes)
        → Keeps w s segments file
        → (full (close io w s).1 ≡ segments) × (active (close io w s).1 ≡ file)
    unfolding close
    close-files w s segments file h =
        let (p, q) = synced-files w s segments file h in
        let e = ap (λ (r : Wal × S × Bool). r.1) (if-false w.closed _ _ h.is_open) in
        (
          ap full e ∙ laws.full-close (io.sync_file (io.flush s)) ∙ p,
          ap active e ∙ laws.active-close (io.sync_file (io.flush s)) ∙ q,
        )

    maybe_flush-Keeps :
        (b : Bool) (w : Wal) (s : S) (segments : List Bytes) (file : Bytes)
        → Keeps w s segments file
        → Keeps w (if b then io.flush s else s) segments file
    maybe_flush-Keeps true w s segments file h = flush-Keeps w s segments file h
    maybe_flush-Keeps false w s segments file h = h

    flush_by-Keeps :
        (policy : FsyncPolicy) (w : Wal) (s : S) (segments : List Bytes) (file : Bytes)
        → Keeps w s segments file
        → Keeps w (flush_by io policy s) segments file
    unfolding flush_by
    flush_by-Keeps always w s segments file h =
        sync-Keeps w (io.flush s) segments file (flush-Keeps w s segments file h)
    flush_by-Keeps every_sec w s segments file h = maybe_flush-Keeps _ w s segments file h
    flush_by-Keeps never w s segments file h = maybe_flush-Keeps _ w s segments file h

    -- A rotation makes the file a finished segment.
    rotate_segment-Keeps :
        (w : Wal) (s : S) (segments : List Bytes) (file : Bytes)
        → Keeps w s segments file
        → Keeps (rotate_segment io w s).0 (rotate_segment io w s).1 (segments ++ (file ∷ [])) []
    unfolding rotate_segment
    rotate_segment-Keeps w s segments file h = record {
      is_open = h.is_open;
      numbered = omega (arith, h.numbered, length-append segments (file ∷ []));
      segments_lem =
          laws.full-open (w.segment_id + 1) s2 next
          ∙ ap₂ (λ a b. a ++ (b ∷ [])) k.segments_lem flushed;
      file_lem =
          ap₂ (λ a b. a ++ b) (laws.active-open (w.segment_id + 1) s2 next)
            (laws.held-open (w.segment_id + 1) s2 (synced-held (s)));
    }
      where
        s2 : S
        s2 = io.sync_file (io.flush s)

        k : Keeps w s2 segments file
        k = sync-Keeps w (io.flush s) segments file (flush-Keeps w s segments file h)

        flushed : active s2 ≡ file
        flushed = laws.active-sync (io.flush s) ∙ laws.active-flush s ∙ h.file_lem

        next : w.segment_id + 1 ≡ suc (suc (length (full s2)))
        next = omega (arith, h.numbered, ap length k.segments_lem)

    -- A write succeeded, and the file is the open one or has just become a finished segment.
    abbrev pub Succeeds : Option (Wal × S × Bool) → List Bytes → Bytes → Type ℓ
    Succeeds r segments file =
        (w : Wal) × (s : S) × (r ≡ some (w, s, true))
        × (Keeps w s segments file ⊎ Keeps w s (segments ++ (file ∷ [])) [])

    grown : Wal → ℕ → Wal
    grown w n = record w { current_size = wrap64 (w.current_size +ℤ pos n) }

    grown-Keeps :
        (w : Wal) (n : ℕ) (s : S) (segments : List Bytes) (file : Bytes)
        → Keeps w s segments file
        → Keeps (grown w n) s segments file
    unfolding grown
    grown-Keeps w n s segments file h = record {
      is_open = h.is_open;
      numbered = h.numbered;
      segments_lem = h.segments_lem;
      file_lem = h.file_lem;
    }

    written-Succeeds :
        (w : Wal) (n : ℕ) (s : S) (segments : List Bytes) (file : Bytes)
        → Keeps w s segments file
        → Succeeds (some (written io w (s, some n))) segments file
    unfolding written grown
    written-Succeeds w n s segments file h =
        elim (Bool-cases (leb_ℤ (grown w n).max_seg_size (grown w n).current_size)) [
          | inl e ↦ (
            (rotate_segment io (grown w n) s').0,
            (rotate_segment io (grown w n) s').1,
            ap some (if-true _ _ _ e),
            inr (rotate_segment-Keeps (grown w n) s' segments file k),
          )
          | inr e ↦ (grown w n, s', ap some (if-false _ _ _ e), inl k)
        ]
      where
        s' : S
        s' = flush_by io w.policy s

        k : Keeps (grown w n) s' segments file
        k = grown-Keeps w n s' segments file (flush_by-Keeps w.policy w s segments file h)

    write-Keeps :
        (bs : Bytes) (w : Wal) (s : S) (segments : List Bytes) (file : Bytes)
        → Keeps w s segments file
        → Keeps w (io.write bs s).0 segments (file ++ bs)
    write-Keeps bs w s segments file h = record {
      is_open = h.is_open;
      numbered = h.numbered;
      segments_lem = laws.full-write bs s ∙ h.segments_lem;
      file_lem = laws.active-write bs s ∙ ap (λ f. f ++ bs) h.file_lem;
    }

    -- A record of a length that fits is added to the open file whole.
    pub write_record-Succeeds :
        (crc : Bytes → ℕ) (op : ℕ) (json : Bytes) (w : Wal) (s : S) (segments : List Bytes)
        (file : Bytes)
        → IsFit json
        → Keeps w s segments file
        → Succeeds (write_record io crc op json w s) segments (file ++ encode crc op json)
    unfolding write_record
    write_record-Succeeds crc op json w s segments file fit h =
        subst (λ r. Succeeds r segments (file ++ buf)) (sym runs)
          (written-Succeeds w (length buf) (io.write buf s).0 segments (file ++ buf)
            (write-Keeps buf w s segments file h))
      where
        buf : Bytes
        buf = encode crc op json

        runs :
            write_record io crc op json w s
            ≡ some (written io w ((io.write buf s).0, some (length buf)))
        runs =
            if-false _ _ _ h.is_open
            ∙ ap (Option.map (λ b. written io w (io.write b s))) (frame_fit crc op json fit)
            ∙ ap (λ n. some (written io w ((io.write buf s).0, n))) (laws.write-all buf s)
