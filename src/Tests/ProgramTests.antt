-- ===== src/Tests/ProgramTests.antt =====
-- cmd/vortexmq/main.go: a run with one publication, its end, and the next start.
use mathlib.Core.List.{Sublistᴰ}
use vortexmq.Prelude.{
  ℕ, zero, suc, true, false, some, List, [], ◌∷◌, ◌++◌, map, Bytes, ◌≡◌, refl, ap, arith, Option,
}
use vortexmq.Text.{codes}
use vortexmq.Message.{Message, new_message}
use vortexmq.Topic
use vortexmq.Broker
use vortexmq.Broker.{Broker}
use vortexmq.Int.{pos}
use vortexmq.Wal.{Wal, FsyncPolicy, always, every_sec, periodic_fsync}
use vortexmq.Waiting.{ticks}
use vortexmq.Wal.Restart.{all}
use vortexmq.Wal.Durable.{Keeps}
use vortexmq.Server.Connections.{started}
use vortexmq.Program.{LogState, running, Flags, up, start, shut_down}
use vortexmq.Program.Logging.{Logged, IsKept}
use vortexmq.Program.Calls.{publication-Logged}
use vortexmq.Program.Trace.{Trace, publishes, stays, and_then}
use vortexmq.Program.Restart.{Reopens, Restored}
use vortexmq.Program.Lossless.{shut_down-start, kill-start, tick-start}
use vortexmq.Wal.Survival.{Survives}
use vortexmq.Tests.WalTests.{
  Directory, empty, finished, in_file, in_buffer, disk, open_at, disk-IsStorage, crc, json,
  crc-bound,
}
use vortexmq.Tests.BrokerTests.{noon}

abbrev files : Directory → List (Option Bytes)
files s = map some (s.finished ++ (s.file ∷ []))

closed-Reopens :
    (s : Directory) → Reopens disk files (disk.close_file s).0 (s.finished ++ (s.file ∷ []))
unfolding open_at
closed-Reopens s = record { made = refl; opened = refl; found = refl }

-- A kill loses the buffer and every write to a file that no Sync has followed.
abbrev kill : Directory → Directory
kill s = record { finished = s.durable.0; file = s.durable.1; held = []; durable = s.durable }

abbrev Safe : Directory → Type 0
Safe s = s.durable ≡ (s.finished, s.file)

killed-Reopens :
    (s : Directory) → Safe s → Reopens disk files (kill s) (s.finished ++ (s.file ∷ []))
unfolding open_at
killed-Reopens s h = record {
  made = refl;
  opened = refl;
  found = ap (λ (d : List Bytes × Bytes). map some (d.0 ++ (d.1 ∷ []))) h;
}

disk-Survives : Survives disk Safe
unfolding open_at
disk-Survives = record { synced = λ s. refl; opened = λ n s h. opens n (disk.close_file s).0 h }
  where
    opens : (n : ℕ) (s : Directory) → Safe s → Safe (open_at n s).0
    opens zero s h = h
    opens (suc zero) s h = h
    opens (suc (suc n)) s h = ap (λ (d : List Bytes × Bytes). (d.0 ++ (d.1 ∷ []), [])) h

-- Nothing is asked of the log beyond what it holds.
abbrev Any : Wal → Directory → Type 0
Any w s = Unit

any-IsKept : IsKept disk crc json Any
any-IsKept e w w' s s' p h = tt

abbrev orders : Bytes
orders = codes "orders"

abbrev payload : Option Bytes
payload = some (9 ∷ [])

abbrev message : Message
message = (new_message orders payload noon 0).0

abbrev decode : Bytes → Option Message
decode bs = some message

-- Under either policy the segments have twelve bytes or 64 MB.
abbrev log_with : FsyncPolicy → ℕ → Wal
log_with policy max = record {
  policy = policy;
  segment_id = 1;
  max_seg_size = pos max;
  current_size = pos 0;
  closed = false;
}

log_with-Keeps :
    (policy : FsyncPolicy) (max : ℕ)
    → Keeps disk finished in_file in_buffer (log_with policy max) empty [] []
log_with-Keeps policy max = record {
  is_open = refl;
  numbered = refl;
  segments_lem = refl;
  file_lem = refl;
}

abbrev begun : Wal → Broker (LogState Directory)
begun w = Broker.new (some (running w empty)) 0

begun-Logged :
    (policy : FsyncPolicy) (max : ℕ)
    → Logged disk crc json finished in_file in_buffer disk-IsStorage Any any-IsKept
        (begun (log_with policy max))
        []
unfolding Broker.new all
begun-Logged policy max = record {
  wal = log_with policy max;
  disk = empty;
  segments = [];
  file = [];
  is_wal = refl;
  holds = log_with-Keeps policy max;
  is_all = refl;
  live = refl;
  is_good = tt;
}

abbrev Published : Wal → Type 0
Published w =
    (b : Broker (LogState Directory)) × (r : Option Message) × Trace disk crc json decode
      (message ∷ []) (begun w) (and_then r []) b

-- One publication.
published : (policy : FsyncPolicy) (max : ℕ) → Published (log_with policy max)
unfolding Broker.publish Broker.new
published policy max =
    let (b, r, runs, log, answer) =
      publication-Logged disk crc json finished in_file in_buffer disk-IsStorage Any any-IsKept
        Topic.publish orders payload noon (begun (log_with policy max)) [] (omega arith)
        (begun-Logged policy max) in
    (b, r, publishes orders payload noon (record { fits = omega arith; decodes = refl }) runs stays)

abbrev flags : Flags
flags = record { enable_wal = true; fsync = codes "everysec" }

-- Segments of 64 MB, so that the record is still in the buffer when the program ends.
abbrev lazy : Published (log_with every_sec 67108864)
lazy = published every_sec 67108864

-- Segments of twelve bytes and a Sync after every record.
abbrev strict : Published (log_with always 12)
strict = published always 12

shut_down-start_example :
    (w : Wal) × (s : Directory) × (b' : Broker (LogState Directory)) × ((shut_down disk crc
        (λ m. some (json m))
        started
        lazy.0).1.wal
      ≡ some (running w s))
    × (start disk crc (λ m. some (json m)) decode files flags s ≡ up b' 1)
    × Restored (message ∷ []) b'
    × Sublistᴰ (and_then lazy.1 []) (message ∷ [])
shut_down-start_example =
    shut_down-start disk crc json finished in_file in_buffer disk-IsStorage decode files
      closed-Reopens crc-bound flags (log_with every_sec 67108864) empty started 0 (message ∷ [])
      (and_then lazy.1 []) lazy.0 refl (log_with-Keeps every_sec 67108864) (omega arith) lazy.2

kill-start_example :
    (w : Wal) × (s : Directory) × (b' : Broker (LogState Directory)) × (strict.0.wal
      ≡ some (running w s))
    × (start disk crc (λ m. some (json m)) decode files flags (kill s) ≡ up b' 1)
    × Restored (message ∷ []) b'
    × Sublistᴰ (and_then strict.1 []) (message ∷ [])
kill-start_example =
    kill-start disk crc json finished in_file in_buffer disk-IsStorage Safe disk-Survives kill
      decode files killed-Reopens crc-bound flags (log_with always 12) empty 0 (message ∷ [])
      (and_then strict.1 []) strict.0 refl (log_with-Keeps always 12) refl refl refl (omega arith)
      strict.2

tick-start_example :
    (w : Wal) × (s : Directory) × (b' : Broker (LogState Directory)) × (lazy.0.wal
      ≡ some (running w s))
    × (start disk crc
          (λ m. some (json m))
          decode
          files
          flags
          (kill (periodic_fsync disk ((ticks, λ found. found) ∷ []) (w, s)).1)
        ≡ up b' 1)
    × Restored (message ∷ []) b'
    × Sublistᴰ (and_then lazy.1 []) (message ∷ [])
tick-start_example =
    tick-start disk crc json finished in_file in_buffer disk-IsStorage Safe disk-Survives kill
      decode files killed-Reopens crc-bound flags (log_with every_sec 67108864) empty 0
      (message ∷ []) (and_then lazy.1 []) lazy.0 refl (log_with-Keeps every_sec 67108864)
      (omega arith) lazy.2
