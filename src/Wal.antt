-- ===== src/Wal.antt =====
-- internal/wal/wal.go: the write-ahead log. The checksum, the JSON encoding and the files are
-- parameters; a file is read as the list of its bytes.
pub mod Format
pub mod Replay
pub mod Durable
pub mod Restart
pub mod Survival
use mathlib.Core.Option
use vortexmq.Prelude.{
  ℕ, zero, suc, ◌+◌, ◌-◌, ◌*◌, ◌/◌, ◌%◌, ◌^◌, Bool, true, false, not, ◌&&◌, Option, none, some,
  List, [], ◌∷◌, ◌++◌, if◌then◌else◌, ltb, leb, ◌==◌, length, get_or, take, drop, Bytes,
}
use vortexmq.Stream.{read_full}
use vortexmq.Waiting.{Turn, ticks, quits}
use vortexmq.Int.{ℤ, pos, ◌+ℤ◌, wrap64, leb_ℤ}
use vortexmq.Message.{Message}

abbrev pub op_publish : ℕ
op_publish = 1

abbrev pub op_ack : ℕ
op_ack = 2

-- `FsyncPolicy`
pub data FsyncPolicy : Type 0 where
  every_sec : FsyncPolicy
  always : FsyncPolicy
  never : FsyncPolicy

-- `WAL`, but for the file and its buffered writer, which are the storage.
pub record Wal : Type 0 where
  pub policy : FsyncPolicy
  pub segment_id : ℕ
  pub max_seg_size : ℤ
  pub current_size : ℤ
  pub closed : Bool

-- What the log calls of the file system: `S` is the directory with the active file and its buffer.
-- A write answers with the number of bytes, or `none` for an error.
pub record Storage {ℓ} (S : Type ℓ) : Type ℓ where
  pub make_dir : S → S × Bool
  pub open_segment : ℕ → S → S × Bool
  pub size : S → Option ℕ
  pub write : Bytes → S → S × Option ℕ
  pub buffered : S → ℕ
  pub flush : S → S
  pub sync_file : S → S
  pub close_file : S → S × Bool

-- `binary.BigEndian.PutUint32` and `binary.BigEndian.Uint32`
unfoldable pub be32 : ℕ → Bytes
be32 n = (n / 16777216 % 256) ∷ (n / 65536 % 256) ∷ (n / 256 % 256) ∷ (n % 256) ∷ []

unfoldable pub read_be32 : Bytes → ℕ
read_be32 bs =
    get_or bs 0 0 * 16777216 + get_or bs 1 0 * 65536 + get_or bs 2 0 * 256 + get_or bs 3 0

-- `totalLen`, a uint32
abbrev pub total_len : Bytes → ℕ
total_len payload = (9 + length payload % 2 ^ 32) % 2 ^ 32

unfoldable pub call_with : Option Message → List Message → List Message
call_with none ms = ms
call_with (some m) ms = m ∷ ms

module _ (unmarshal : Bytes → Option Message) where
  -- What a record restores: only publications are looked at.
  unfoldable pub restored : Bytes → Option Message
  restored [] = none
  restored (op ∷ json) = if op == op_publish then unmarshal json else none

module _ (crc : Bytes → ℕ) where
  -- The buffer that `writeRecord` fills; `none` is its panic when the length has wrapped below 9.
  unfoldable pub frame : ℕ → Bytes → Option Bytes
  frame op payload =
      if ltb (total_len payload) 9
      then none
      else some (
          be32 (total_len payload)
          ++ (be32 (crc (op ∷ payload)) ++ (op ∷ take (total_len payload - 9) payload)))

  -- The test of a body that was read against the header's checksum.
  unfoldable pub checked : ℕ → Option (Bytes × Bytes) → Option (Bytes × Bytes)
  checked expected none = none
  checked expected (some (body, rest)) = if crc body == expected then some (body, rest) else none

  -- The part of a round of `Replay` that follows the header: the body and the rest of the file.
  unfoldable pub read_body : ℕ → ℕ → Bytes → Option (Bytes × Bytes)
  read_body total expected bs = checked expected (read_full (total - 8) bs)

  unfoldable pub after_header : Option (Bytes × Bytes) → Option (Bytes × Bytes)
  after_header none = none
  after_header (some (header, rest)) =
      if ltb (read_be32 (take 4 header)) 9
      then none
      else read_body (read_be32 (take 4 header)) (read_be32 (drop 4 header)) rest

  -- One round of the loop of `Replay`; `none` where it breaks off.
  unfoldable pub read_record : Bytes → Option (Bytes × Bytes)
  read_record bs = after_header (read_full 8 bs)

  module _ (unmarshal : Bytes → Option Message) where
    -- The loop over a file: the messages given to `onPublish`. Each round reads at least 9 bytes.
    unfoldable pub replay_file : ℕ → Bytes → List Message
    replay_file zero bs = []
    replay_file (suc fuel) bs = elim (read_record bs) [
      | none ↦ []
      | some (body, rest) ↦ call_with (restored unmarshal body) (replay_file fuel rest)
    ]

    -- `Replay` on the files in the order of their names; a file that cannot be opened is `none`.
    unfoldable pub replay : List (Option Bytes) → ℕ × List Message
    replay [] = (0, [])
    replay (none ∷ files) = replay files
    replay (some file ∷ files) =
        let ms = replay_file (length file) file in
        let (n, rest) = replay files in (length ms + n, ms ++ rest)

module _ {ℓ} {S : Type ℓ} (io : Storage S) where
  -- `OpenWAL`; `none` for its errors.
  unfoldable pub open_wal : FsyncPolicy → S → S × Option Wal
  open_wal policy s =
      let (s1, made) = io.make_dir s in
      let (s2, opened) = io.open_segment 1 s1 in
      if not made then (s1, none) else if not opened then (s2, none) else (
        s2,
        some (record {
          policy = policy;
          segment_id = 1;
          max_seg_size = pos 67108864;
          current_size = elim (io.size s2) [ none ↦ pos 0 | some n ↦ pos n ];
          closed = false;
        }),
      )

  -- `rotateSegment`
  unfoldable pub rotate_segment : Wal → S → Wal × S
  rotate_segment w s =
      let (s', opened) =
        io.open_segment (w.segment_id + 1) (io.close_file (io.sync_file (io.flush s))).0 in
      (
        record w {
          segment_id = w.segment_id + 1;
          current_size = if opened then pos 0 else w.current_size;
        },
        s',
      )

  -- The flush that a policy asks for after a write.
  unfoldable pub flush_by : FsyncPolicy → S → S
  flush_by always s = io.sync_file (io.flush s)
  flush_by every_sec s = if leb 131072 (io.buffered s) then io.flush s else s
  flush_by never s = if leb 131072 (io.buffered s) then io.flush s else s

  -- The rest of `writeRecord` after the write; the Boolean is false for an error.
  unfoldable pub written : Wal → S × Option ℕ → Wal × S × Bool
  written w (s, none) = (w, s, false)
  written w (s, some n) =
      let w' = record w { current_size = wrap64 (w.current_size +ℤ pos n) } in
      let s' = flush_by w.policy s in
      let (w'', s'') = rotate_segment w' s' in
      if leb_ℤ w'.max_seg_size w'.current_size then (w'', s'', true) else (w', s', true)

  -- `Sync`, and `Close` with its error
  unfoldable pub sync : Wal → S → S
  sync w s = if w.closed then s else io.sync_file (io.flush s)

  unfoldable pub close : Wal → S → Wal × S × Bool
  close w s =
      let (s', ok) = io.close_file (io.sync_file (io.flush s)) in
      if w.closed then (w, s, true) else (record w { closed = true }, s', ok)

  -- `periodicFsync`: each turn finds the log as the other goroutines have left it.
  unfoldable pub periodic_fsync : List (Turn × (Wal × S → Wal × S)) → Wal × S → Wal × S
  periodic_fsync [] found = found
  periodic_fsync ((ticks, others) ∷ turns) found =
      periodic_fsync turns ((others found).0, sync (others found).0 (others found).1)
  periodic_fsync ((quits, others) ∷ turns) found = others found

  module _ (crc : Bytes → ℕ) where
    -- `writeRecord`
    unfoldable pub write_record : ℕ → Bytes → Wal → S → Option (Wal × S × Bool)
    write_record op payload w s =
        if w.closed
        then some (w, s, false)
        else Option.map (λ buf. written w (io.write buf s)) (frame crc op payload)

    -- `WritePublish`
    unfoldable pub write_publish :
        (Message → Option Bytes) → Message → Wal → S → Option (Wal × S × Bool)
    write_publish marshal m w s = elim (marshal m) [
      | none ↦ some (w, s, false)
      | some json ↦ write_record op_publish json w s
    ]

    -- `WriteAck`
    unfoldable pub write_ack : Bytes → Bytes → Bytes → Wal → S → Option (Wal × S × Bool)
    write_ack topic group id w s =
        write_record op_ack (topic ++ (b':' ∷ (group ++ (b':' ∷ id)))) w s
