-- ===== src/Program/Lossless.antt =====
-- cmd/vortexmq/main.go: a run of the program, its end, in order or not, and the next start on the same
-- directory.
use mathlib.Core.List.{Sublistᴰ}
use vortexmq.Prelude.{
  ℕ, ◌≤◌, ◌<◌, ◌^◌, Bool, true, false, Option, some, if-false, List, [], ◌∷◌, ◌++◌, length,
  append-nil, Bytes, sym, ◌≡◌, refl, ap, ap₂, ◌∙◌, subst,
}
use vortexmq.Deque.{largest}
use vortexmq.Message.{Message}
use vortexmq.Broker
use vortexmq.Broker.{Broker}
use vortexmq.Wal
use vortexmq.Wal.{Wal, Storage, every_sec, open_wal, replay}
use vortexmq.Waiting.{ticks}
use vortexmq.Wal.Durable.{IsStorage, Keeps, synced-files}
use vortexmq.Wal.Restart.{all}
use vortexmq.Server.Connections.{ServerState}
use vortexmq.Wal.{always}
use vortexmq.Wal.Survival.{Survives, IsSafe, logged-IsSafe}
use vortexmq.Program.Logging.{IsKept, engine}
use vortexmq.Program.Trace.{Trace}
use vortexmq.Program.Ran.{Ran}
use vortexmq.Program.Runs.{Trace-Ran}
use vortexmq.Program.Restart.{Reopens, Restored, start-Restored}
use vortexmq.Program.{LogState, running, called, engine_close, Flags, up, start, shut_down}

module _ {S : Type 0} (io : Storage S) (crc : Bytes → ℕ) (json : Message → Bytes)
    (full : S → List Bytes) (active held : S → Bytes) (laws : IsStorage io full active held) where
  -- A run from a fresh log.
  fresh-Ran :
      (Good : Wal → S → Type 0) (kept : IsKept io crc json Good)
      (unmarshal : Bytes → Option Message) (w : Wal) (s : S) (sequence : ℕ) (ws ms : List Message)
      (b : Broker (LogState S))
      → Keeps io full active held w s [] []
      → Good w s
      → Trace io crc json unmarshal ws (Broker.new (some (running w s)) sequence) ms b
      → Ran io crc json full active held laws Good kept unmarshal ws [] ms b
  unfolding all Broker.new
  fresh-Ran Good kept unmarshal w s sequence ws ms b fresh good trace =
      Trace-Ran io crc json full active held laws Good kept unmarshal trace [] tt (record {
        wal = w;
        disk = s;
        segments = [];
        file = [];
        is_wal = refl;
        holds = fresh;
        is_all = refl;
        live = refl;
        is_good = good;
      })

  -- The disk that Close leaves.
  abbrev closed_disk : S → S
  closed_disk s = (io.close_file (io.sync_file (io.flush s))).0

  close-wal :
      (b : Broker (LogState S)) (w : Wal) (s : S)
      → b.closed ≡ false
      → w.closed ≡ false
      → b.wal ≡ some (running w s)
      → (Broker.close (engine io crc json) b).0.wal
        ≡ some (running (record w { closed = true }) (closed_disk s))
  unfolding Broker.close Broker.close_wal engine_close called Wal.close
  close-wal b w s live serving e =
      ap (λ (r : Broker (LogState S) × Bool). r.0.wal) (if-false b.closed _ _ live)
      ∙ rw (e, Broker.close_wal)
          (ap (λ (r : Wal × S × Bool). some (running r.0 r.1)) (if-false w.closed _ _ serving))

  abbrev NoMore : Wal → S → Type 0
  NoMore w s = Unit

  -- Files that have what the log has written reopen with it.
  logged-Reopens :
      (files : S → List (Option Bytes)) (left s : S) (segments : List Bytes) (file : Bytes)
      → full s ≡ segments
      → active s ≡ file
      → Reopens io files left (full s ++ (active s ∷ []))
      → Reopens io files left (segments ++ (file ∷ []))
  logged-Reopens files left s segments file p q h =
      subst (Reopens io files left) (ap₂ (λ x y. x ++ (y ∷ [])) p q) h

  -- Where nothing is held back, the open file has all that was written to it.
  unheld-file :
      (w : Wal) (s : S) (segments : List Bytes) (file : Bytes)
      → Keeps io full active held w s segments file
      → held s ≡ []
      → active s ≡ file
  unheld-file w s segments file h e =
      sym (append-nil (active s)) ∙ ap (λ x. active s ++ x) (sym e) ∙ h.file_lem

  -- From a fresh open log, after calls made one after the other that write at most 2^24 messages, of which
  -- the records fit and decode, the end of the program leaves a directory on which the next start, with the
  -- log enabled, comes up: it counts exactly the messages that were written, every one of them waits again
  -- in its topic in the order of the writing, and every one that Publish and PublishFront have returned is
  -- among them, in the order of the calls.
  pub shut_down-start :
      (unmarshal : Bytes → Option Message) (files : S → List (Option Bytes))
      (reopens : (s : S) → Reopens io files (io.close_file s).0 (full s ++ (active s ∷ [])))
      (crc_bound : (bs : Bytes) → crc bs < 2 ^ 32) (flags : Flags) (w : Wal) (s : S)
      (server : ServerState) (sequence : ℕ) (ws ms : List Message) (b : Broker (LogState S))
      → flags.enable_wal ≡ true
      → Keeps io full active held w s [] []
      → length ws ≤ largest
      → Trace io crc json unmarshal ws (Broker.new (some (running w s)) sequence) ms b
      → (w' : Wal) × (s' : S) × (b' : Broker (LogState S)) × ((shut_down io crc
            (λ m. some (json m))
            server
            b).1.wal
          ≡ some (running w' s'))
        × (start io crc (λ m. some (json m)) unmarshal files flags s' ≡ up b' (length ws))
        × Restored ws b'
        × Sublistᴰ ms ws
  unfolding shut_down
  shut_down-start unmarshal files reopens crc_bound flags w s server sequence ws ms b on fresh few
        trace =
      let ran =
        fresh-Ran NoMore (λ e w w' s s' p h. tt) unmarshal w s sequence ws ms b fresh tt trace in
      let synced : S = io.sync_file (io.flush ran.log.disk) in
      let (p, q) =
        synced-files io full active held laws ran.log.wal ran.log.disk _ _ ran.log.holds in
      let (b', starts, h) =
        start-Restored io crc json full active held laws NoMore (λ e w w' s s' p h. tt) unmarshal
          files crc_bound flags on ws ms b ran few (closed_disk ran.log.disk)
          (logged-Reopens files (closed_disk ran.log.disk) synced _ _ p q (reopens synced)) in
      (
        record ran.log.wal { closed = true },
        closed_disk ran.log.disk,
        b',
        close-wal b ran.log.wal ran.log.disk ran.log.live ran.log.holds.is_open ran.log.is_wal,
        starts,
        h,
        ran.accepted,
      )

  -- Under FsyncAlways the same holds of a process that is killed: between any two calls the disk is such
  -- that the next start on what the kill leaves of the files, without what the writer's buffer held,
  -- comes up with exactly the messages that were written, and so with every one that Publish and
  -- PublishFront have returned. What a Sync has covered survives the kill by hypothesis.
  pub kill-start :
      (Safe : S → Type 0) (survives : Survives io Safe) (kill : S → S)
      (unmarshal : Bytes → Option Message) (files : S → List (Option Bytes))
      (reopens : (s : S) → Safe s → Reopens io files (kill s) (full s ++ (active s ∷ [])))
      (crc_bound : (bs : Bytes) → crc bs < 2 ^ 32) (flags : Flags) (w : Wal) (s : S) (sequence : ℕ)
      (ws ms : List Message) (b : Broker (LogState S))
      → flags.enable_wal ≡ true
      → Keeps io full active held w s [] []
      → w.policy ≡ always
      → Safe s
      → held s ≡ []
      → length ws ≤ largest
      → Trace io crc json unmarshal ws (Broker.new (some (running w s)) sequence) ms b
      → (w' : Wal) × (s' : S) × (b' : Broker (LogState S)) × (b.wal ≡ some (running w' s'))
        × (start io crc (λ m. some (json m)) unmarshal files flags (kill s') ≡ up b' (length ws))
        × Restored ws b'
        × Sublistᴰ ms ws
  kill-start Safe survives kill unmarshal files reopens crc_bound flags w s sequence ws ms b on
        fresh syncs safe unheld few trace =
      let ran =
        fresh-Ran (IsSafe io full active held laws Safe survives)
          (logged-IsSafe io full active held laws Safe survives json crc) unmarshal w s sequence ws
          ms b fresh (record { syncs = syncs; safe = safe; nothing_held = unheld }) trace in
      let (b', starts, h) =
        start-Restored io crc json full active held laws
          (IsSafe io full active held laws Safe survives)
          (logged-IsSafe io full active held laws Safe survives json crc) unmarshal files crc_bound
          flags on ws ms b ran few (kill ran.log.disk)
          (logged-Reopens files (kill ran.log.disk) ran.log.disk _ _ ran.log.holds.segments_lem
            (unheld-file ran.log.wal ran.log.disk _ _ ran.log.holds ran.log.is_good.nothing_held)
            (reopens ran.log.disk ran.log.is_good.safe)) in
      (ran.log.wal, ran.log.disk, b', ran.log.is_wal, starts, h, ran.accepted)

  -- Under any policy the same holds of a process that is killed when a tick of periodicFsync has come
  -- after the last of the calls.
  pub tick-start :
      (Safe : S → Type 0) (survives : Survives io Safe) (kill : S → S)
      (unmarshal : Bytes → Option Message) (files : S → List (Option Bytes))
      (reopens : (s : S) → Safe s → Reopens io files (kill s) (full s ++ (active s ∷ [])))
      (crc_bound : (bs : Bytes) → crc bs < 2 ^ 32) (flags : Flags) (w : Wal) (s : S) (sequence : ℕ)
      (ws ms : List Message) (b : Broker (LogState S))
      → flags.enable_wal ≡ true
      → Keeps io full active held w s [] []
      → length ws ≤ largest
      → Trace io crc json unmarshal ws (Broker.new (some (running w s)) sequence) ms b
      → (w' : Wal) × (s' : S) × (b' : Broker (LogState S)) × (b.wal ≡ some (running w' s'))
        × (start io crc
              (λ m. some (json m))
              unmarshal
              files
              flags
              (kill (Wal.periodic_fsync io ((ticks, λ found. found) ∷ []) (w', s')).1)
            ≡ up b' (length ws))
        × Restored ws b'
        × Sublistᴰ ms ws
  unfolding Wal.periodic_fsync Wal.sync
  tick-start Safe survives kill unmarshal files reopens crc_bound flags w s sequence ws ms b on
        fresh few trace =
      let ran =
        fresh-Ran NoMore (λ e w w' s s' p h. tt) unmarshal w s sequence ws ms b fresh tt trace in
      let synced : S = io.sync_file (io.flush ran.log.disk) in
      let (p, q) =
        synced-files io full active held laws ran.log.wal ran.log.disk _ _ ran.log.holds in
      let (b', starts, h) =
        start-Restored io crc json full active held laws NoMore (λ e w w' s s' p h. tt) unmarshal
          files crc_bound flags on ws ms b ran few (kill synced)
          (logged-Reopens files (kill synced) synced _ _ p q
            (reopens synced (survives.synced (io.flush ran.log.disk)))) in
      (
        ran.log.wal,
        ran.log.disk,
        b',
        ran.log.is_wal,
        ap (λ s. start io crc (λ m. some (json m)) unmarshal files flags (kill s))
              (if-false ran.log.wal.closed _ _ ran.log.holds.is_open)
            ∙ starts,
        h,
        ran.accepted,
      )
