-- ===== src/Wal/Survival.antt =====
-- internal/wal/wal.go: what WritePublish and WriteAck leave behind under FsyncAlways, should the process
-- end at once.
use mathlib.Core.Option
use vortexmq.Prelude.{
  ℕ, Bool, ◌+◌, true, false, Bool-cases, inl, inr, if-true, if-false, Option, none, some, List, [],
  Bytes, ◌≡◌, sym, ap, subst,
}
use vortexmq.Int.{ℤ, pos, ◌+ℤ◌, wrap64, leb_ℤ}
use vortexmq.Message.{Message}
use vortexmq.Wal.{
  Wal, Storage, FsyncPolicy, always, flush_by, rotate_segment, written, frame, write_record,
  write_publish, write_ack,
}
use vortexmq.Wal.Durable.{IsStorage, synced-held}
use vortexmq.Wal.Replay.{Event, publication, acknowledgement}
use vortexmq.Wal.Restart.{logged}

-- A disk is safe if what its files have, without what the writer's buffer holds, outlives the process and
-- the system: after a Sync, and still when the file has been closed and the next segment opened.
pub record Survives {S : Type 0} (io : Storage S) (Safe : S → Type 0) : Type 0 where
  pub synced : (s : S) → Safe (io.sync_file s)
  pub opened : (n : ℕ) (s : S) → Safe s → Safe (io.open_segment n (io.close_file s).0).0

module _ {S : Type 0} (io : Storage S) (full : S → List Bytes) (active held : S → Bytes)
    (laws : IsStorage io full active held) (Safe : S → Type 0) (survives : Survives io Safe) where
  -- The log syncs every record, the disk is safe, and nothing is held back.
  pub record IsSafe (w : Wal) (s : S) : Type 0 where
    pub syncs : w.policy ≡ always
    pub safe : Safe s
    pub nothing_held : held s ≡ []

  -- Where a call has succeeded, it leaves the disk safe.
  unfoldable LeavesSafe : Option (Wal × S × Bool) → Type 0
  LeavesSafe none = Unit
  LeavesSafe (some (w, s, false)) = Unit
  LeavesSafe (some (w, s, true)) = IsSafe w s

  synced-IsSafe : (w : Wal) (s : S) → w.policy ≡ always → IsSafe w (io.sync_file (io.flush s))
  synced-IsSafe w s e = record {
    syncs = e;
    safe = survives.synced (io.flush s);
    nothing_held = synced-held io full active held laws s;
  }

  flush_by-IsSafe :
      (policy : FsyncPolicy) (w : Wal) (s : S)
      → policy ≡ always
      → w.policy ≡ always
      → IsSafe w (flush_by io policy s)
  unfolding flush_by
  flush_by-IsSafe policy w s p e =
      subst (λ q. IsSafe w (flush_by io q s)) (sym p) (synced-IsSafe w s e)

  written-LeavesSafe :
      (w : Wal) (r : S × Option ℕ) → w.policy ≡ always → LeavesSafe (some (written io w r))
  unfolding written rotate_segment LeavesSafe
  written-LeavesSafe w (s, none) e = tt
  written-LeavesSafe w (s, some n) e = elim (Bool-cases (leb_ℤ w.max_seg_size (size n))) [
    | inl big ↦
        subst LeavesSafe (ap some (sym (if-true (leb_ℤ w.max_seg_size (size n)) _ _ big))) (record {
          syncs = e;
          safe =
              survives.opened (w.segment_id + 1) _
                (survives.synced (io.flush (flush_by io w.policy s)));
          nothing_held =
              laws.held-open (w.segment_id + 1) _
                (synced-held io full active held laws (flush_by io w.policy s));
        })
    | inr room ↦
        subst LeavesSafe (ap some (sym (if-false (leb_ℤ w.max_seg_size (size n)) _ _ room)))
          (flush_by-IsSafe w.policy (record w { current_size = size n }) s e e)
  ]
    where
      size : ℕ → ℤ
      size n = wrap64 (w.current_size +ℤ pos n)

  framed-LeavesSafe :
      (w : Wal) (s : S) (o : Option Bytes)
      → w.policy ≡ always
      → LeavesSafe (Option.map (λ buf. written io w (io.write buf s)) o)
  unfolding LeavesSafe
  framed-LeavesSafe w s none e = tt
  framed-LeavesSafe w s (some buf) e = written-LeavesSafe w (io.write buf s) e

  write_record-LeavesSafe :
      (crc : Bytes → ℕ) (op : ℕ) (bs : Bytes) (w : Wal) (s : S)
      → w.policy ≡ always
      → LeavesSafe (write_record io crc op bs w s)
  unfolding write_record LeavesSafe
  write_record-LeavesSafe crc op bs w s e = elim (Bool-cases w.closed) [
    | inl shut ↦ subst LeavesSafe (sym (if-true w.closed _ _ shut)) tt
    | inr running ↦
        subst LeavesSafe (sym (if-false w.closed _ _ running))
          (framed-LeavesSafe w s (frame crc op bs) e)
  ]

  logged-LeavesSafe :
      (json : Message → Bytes) (crc : Bytes → ℕ) (e : Event) (w : Wal) (s : S)
      → w.policy ≡ always
      → LeavesSafe (logged json crc io e w s)
  unfolding logged write_publish write_ack
  logged-LeavesSafe json crc (publication m) w s h = write_record-LeavesSafe crc _ _ w s h
  logged-LeavesSafe json crc (acknowledgement topic group id) w s h =
      write_record-LeavesSafe crc _ _ w s h

  -- A call that logs an event without an error leaves the log safe where every record is synced.
  pub logged-IsSafe :
      (json : Message → Bytes) (crc : Bytes → ℕ) (e : Event) (w w' : Wal) (s s' : S)
      → logged json crc io e w s ≡ some (w', s', true)
      → IsSafe w s
      → IsSafe w' s'
  unfolding LeavesSafe
  logged-IsSafe json crc e w w' s s' runs h =
      subst LeavesSafe runs (logged-LeavesSafe json crc e w s h.syncs)
