-- ===== src/Tests/WalTests.antt =====
-- internal/wal/wal.go with a checksum that counts the bytes and an encoding of one message.
use vortexmq.Prelude.{
  ℕ, zero, suc, Bool, sym, ap, append_assoc, ◌%◌, ◌<◌, ◌^◌, ◌≡◌, refl, arith, Option, some, true,
  false, List, [], ◌∷◌, ◌++◌, take, length, Bytes,
}
use vortexmq.Message.{Message}
use vortexmq.Int.{pos}
use vortexmq.Wal.{Wal, Storage, every_sec, replay, be32}
use vortexmq.Wal.Durable.{IsStorage, Keeps}
use vortexmq.Wal.Replay.{
  Event, publication, acknowledgement, publications, log, record_of, AllFit, replay-torn,
  replay-damaged,
}
use vortexmq.Tests.Samples.{letter}

abbrev pub crc : Bytes → ℕ
crc bs = length bs % 2 ^ 32

abbrev pub json : Message → Bytes
json m = 7 ∷ 8 ∷ []

abbrev pub unmarshal : Bytes → Option Message
unmarshal bs = some letter

abbrev pub events : List Event
events = publication letter ∷ acknowledgement (1 ∷ []) (2 ∷ []) (3 ∷ []) ∷ publication letter ∷ []

pub crc-bound : (bs : Bytes) → crc bs < 2 ^ 32
crc-bound bs = omega arith

pub events-AllFit : AllFit json unmarshal events
events-AllFit = ((omega arith, refl), ((omega arith, tt), ((omega arith, refl), tt)))

replay-torn_example :
    replay crc unmarshal
      (some (log json crc events ++ take 9 (record_of json crc (publication letter))) ∷ [])
    ≡ (2, letter ∷ letter ∷ [])
unfolding publications be32
replay-torn_example =
    replay-torn json crc unmarshal crc-bound events (publication letter) 9 events-AllFit
      (omega arith) (omega arith)

replay-damaged_example :
    replay crc unmarshal
      (some (log json crc events ++ ((be32 9 ++ be32 5) ++ ((1 ∷ []) ++ (0 ∷ [])))) ∷ [])
    ≡ (2, letter ∷ letter ∷ [])
unfolding publications
replay-damaged_example =
    replay-damaged json crc unmarshal crc-bound events 5 (1 ∷ []) (0 ∷ []) events-AllFit
      (omega arith) (omega arith) (omega arith) (omega arith)

-- A directory: the finished segments, the open file, what the writer's buffer holds, and what of the files
-- a kill leaves.
pub record Directory : Type 0 where
  pub finished : List Bytes
  pub file : Bytes
  pub held : Bytes
  pub durable : List Bytes × Bytes

abbrev pub empty : Directory
empty = record { finished = []; file = []; held = []; durable = ([], []) }

-- The first segment opens as it is, a later one empty.
unfoldable pub open_at : ℕ → Directory → Directory × Bool
open_at zero s = (record s { held = [] }, true)
open_at (suc zero) s = (record s { held = [] }, true)
open_at (suc (suc n)) s = (
  record s {
    finished = s.finished ++ (s.file ∷ []);
    file = [];
    held = [];
    durable = (s.durable.0 ++ (s.durable.1 ∷ []), []);
  },
  true,
)

abbrev pub disk : Storage Directory
disk = record {
  make_dir = λ s. (s, true);
  open_segment = open_at;
  size = λ s. some (length s.file);
  write = λ bs s. (record s { held = s.held ++ bs }, some (length bs));
  buffered = λ s. length s.held;
  flush = λ s. record s { file = s.file ++ s.held; held = [] };
  sync_file = λ s. record s { durable = (s.finished, s.file) };
  close_file = λ s. (record s { held = [] }, true);
}

abbrev pub finished : Directory → List Bytes
finished s = s.finished

abbrev pub in_file : Directory → Bytes
in_file s = s.file

abbrev pub in_buffer : Directory → Bytes
in_buffer s = s.held

pub open_at-next :
    (n : ℕ) (s : Directory)
    → n ≡ suc (suc (length s.finished))
    → open_at n s ≡ open_at (suc (suc 0)) s
unfolding open_at
open_at-next n s e = ap (λ k. open_at k s) e

pub disk-IsStorage : IsStorage disk finished in_file in_buffer
unfolding open_at
disk-IsStorage = record {
  write-all = λ bs s. refl;
  full-write = λ bs s. refl;
  active-write = λ bs s. sym (append_assoc s.file s.held bs);
  full-flush = λ s. refl;
  active-flush = λ s. refl;
  held-flush = λ s. refl;
  full-sync = λ s. refl;
  active-sync = λ s. refl;
  held-sync = λ s. refl;
  full-close = λ s. refl;
  active-close = λ s. refl;
  full-open =
      λ n s e. ap (λ (r : Directory × Bool). r.0.finished) (open_at-next n (disk.close_file s).0 e);
  active-open =
      λ n s e. ap (λ (r : Directory × Bool). r.0.file) (open_at-next n (disk.close_file s).0 e);
  held-open = λ n s e. held_open n (disk.close_file s).0;
}
  where
    held_open : (n : ℕ) (s : Directory) → (open_at n s).0.held ≡ []
    held_open zero s = refl
    held_open (suc zero) s = refl
    held_open (suc (suc n)) s = refl

-- Segments of twelve bytes, so that every record rotates.
abbrev pub small : Wal
small = record {
  policy = every_sec;
  segment_id = 1;
  max_seg_size = pos 11;
  current_size = pos 0;
  closed = false;
}

pub small-Keeps : Keeps disk finished in_file in_buffer small empty [] []
small-Keeps = record { is_open = refl; numbered = refl; segments_lem = refl; file_lem = refl }
