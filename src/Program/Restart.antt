-- ===== src/Program/Restart.antt =====
-- cmd/vortexmq/main.go: the start on the directory of an earlier run.
use mathlib.Core.Option
use vortexmq.Prelude.{
  ℕ, ◌+◌, ◌≤◌, ◌<◌, ◌^◌, Bool, true, false, not, Option, none, some, Bool-cases, if-true, if-false,
  List, [], ◌∷◌, ◌++◌, map, length, Bytes, bytes_dec, ite, leb, leb→le, inl, inr, append_assoc,
  append-nil, length-append, ◌≡◌, refl, sym, ap, ◌∙◌, subst, arith,
}
use vortexmq.Deque.{Deque, largest, room, do_push}
use vortexmq.Int.{pos}
use vortexmq.Message.{Message}
use vortexmq.Broker
use vortexmq.Broker.{Broker}
use vortexmq.Wal
use vortexmq.Wal.{Wal, Storage, every_sec, open_wal, replay}
use vortexmq.Wal.Durable.{IsStorage}
use vortexmq.Wal.Replay.{log, publications, AllFit}
use vortexmq.Wal.Restart.{replay-all}
use vortexmq.Recovery.{restore_all, recover}
use vortexmq.Recovery.Order.{empty_queue, queue_of, Stands, restore_all-Stands, new-Stands}
use vortexmq.Program.Logging.{IsKept}
use vortexmq.Program.Ran.{Ran}
use vortexmq.Program.{LogState, running, Flags, policy_of, up, recovered, replayed, start}

-- The messages of one topic, in their order.
unfoldable pub of_topic : Bytes → List Message → List Message
of_topic name [] = []
of_topic name (m ∷ ms) = ite (bytes_dec m.topic name) (m ∷ of_topic name ms) (of_topic name ms)

-- While a queue is shorter than the largest ring, a push gives up nothing.
room-items : (d : Deque Message) → length d.items < largest → (room d).items ≡ d.items
unfolding room
room-items d h = elim (Bool-cases (leb d.capacity (length d.items))) [
  | inl e ↦ elim (Bool-cases (leb largest d.capacity)) [
    | inl e' ↦ absurd (omega (arith, leb→le _ _ e, leb→le _ _ e'))
    | inr e' ↦ ap (λ (x : Deque Message). x.items) (if-true _ _ _ e ∙ if-false _ _ _ e')
  ]
  | inr e ↦ ap (λ (x : Deque Message). x.items) (if-false _ _ _ e)
]

do_push-items :
    (m : Message) (d : Deque Message)
    → length d.items < largest
    → d.closed ≡ false
    → ((do_push m d).0.items ≡ d.items ++ (m ∷ [])) × ((do_push m d).0.closed ≡ false)
unfolding do_push
do_push-items m d h e =
    subst (λ (x : Deque Message × Bool). (x.0.items ≡ d.items ++ (m ∷ [])) × (x.0.closed ≡ false))
      (sym (if-false d.closed _ _ e)) (ap (λ xs. xs ++ (m ∷ [])) (room-items d h), e)

queue_of-items :
    (name : Bytes) (ms : List Message) (d : Deque Message)
    → length d.items + length ms ≤ largest
    → d.closed ≡ false
    → (queue_of name ms d).items ≡ d.items ++ of_topic name ms
unfolding queue_of of_topic
queue_of-items name [] d h e = sym (append-nil d.items)
queue_of-items name (m ∷ ms) d h e = one (bytes_dec m.topic name) (λ d'. queue_of-items name ms d')
  where
    one :
        (x : Dec (m.topic ≡ name))
        → ((d' : Deque Message)
            → length d'.items + length ms ≤ largest
            → d'.closed ≡ false
            → (queue_of name ms d').items ≡ d'.items ++ of_topic name ms)
        → (queue_of name ms (ite x (do_push m d).0 d)).items
          ≡ d.items ++ ite x (m ∷ of_topic name ms) (of_topic name ms)
    one (yes p) rest =
        let (items, live) = do_push-items m d (omega arith) e in
        rest (do_push m d).0 (omega (arith, ap length items, length-append d.items (m ∷ []))) live
        ∙ ap (λ xs. xs ++ of_topic name ms) items
        ∙ append_assoc d.items (m ∷ []) (of_topic name ms)
    one (no p) rest = rest d (omega arith) e

-- A broker in whose topics these messages wait, in their order, and nothing else.
pub record Restored {W : Type 0} (written : List Message) (b : Broker W) : Type 0 where
  pub queue : Bytes → Deque Message
  pub waits : (name : Bytes) → Stands name b (queue name)
  pub in_order : (name : Bytes) → (queue name).items ≡ of_topic name written

restore_all-Restored :
    {W : Type 0} (wal : Option W) (sequence : ℕ) (written : List Message)
    → length written ≤ largest
    → (b : Broker W) × (restore_all written (Broker.new wal sequence) ≡ some b) × Restored written b
restore_all-Restored wal sequence written few =
    let (b, runs, h) =
      restore_all-Stands written (Broker.new wal sequence) (λ name. empty_queue)
        (new-Stands wal sequence) in
    (
      b,
      runs,
      record {
        queue = λ name. queue_of name written empty_queue;
        waits = h;
        in_order = λ name. queue_of-items name written empty_queue (omega (arith, few)) refl;
      },
    )

-- The directory when the program starts again: MkdirAll and the opening of the first segment, with
-- O_CREATE and O_APPEND, succeed, and Replay then reads these files.
pub record Reopens {S : Type 0} (io : Storage S) (files : S → List (Option Bytes)) (left : S)
    (contents : List Bytes) : Type 0 where
  pub made : (io.make_dir left).1 ≡ true
  pub opened : (io.open_segment 1 (io.make_dir left).0).1 ≡ true
  pub found : files (io.open_segment 1 (io.make_dir left).0).0 ≡ map some contents

module _ {S : Type 0} (io : Storage S) (crc : Bytes → ℕ) (json : Message → Bytes)
    (full : S → List Bytes) (active held : S → Bytes) (laws : IsStorage io full active held)
    (Good : Wal → S → Type 0) (kept : IsKept io crc json Good) (unmarshal : Bytes → Option Message)
    (files : S → List (Option Bytes)) where
  -- The disk that the next start has, and its log.
  abbrev reopened : S → S
  reopened left = (io.open_segment 1 (io.make_dir left).0).0

  abbrev next_wal : Wal.FsyncPolicy → S → Wal
  next_wal policy s = record {
    policy = policy;
    segment_id = 1;
    max_seg_size = pos 67108864;
    current_size = elim (io.size s) [ none ↦ pos 0 | some n ↦ pos n ];
    closed = false;
  }

  open_wal-Reopens :
      (policy : Wal.FsyncPolicy) (left : S) (contents : List Bytes)
      → Reopens io files left contents
      → open_wal io policy left ≡ (reopened left, some (next_wal policy (reopened left)))
  unfolding open_wal
  open_wal-Reopens policy left contents h =
      if-false _ _ _ (ap not h.made) ∙ if-false _ _ _ (ap not h.opened)

  found-replay :
      (crc_bound : (bs : Bytes) → crc bs < 2 ^ 32) (ws ms : List Message) (b : Broker (LogState S))
      (ran : Ran io crc json full active held laws Good kept unmarshal ws [] ms b) (left : S)
      → Reopens io files left
          (map (log json crc) ran.log.segments ++ (log json crc ran.log.file ∷ []))
      → replay crc unmarshal (files (reopened left)) ≡ (length ws, ws)
  unfolding publications
  found-replay crc_bound ws ms b ran left h =
      ap (replay crc unmarshal) h.found
      ∙ replay-all json crc unmarshal crc_bound ran.log.segments ran.log.file
          (subst (AllFit json unmarshal) (sym ran.log.is_all) ran.fit)
      ∙ ap (λ es. (length (publications es), publications es)) ran.log.is_all
      ∙ ap (λ xs. (length xs, xs)) ran.grows

  -- The next start, on the files that a run has written.
  pub start-Restored :
      (crc_bound : (bs : Bytes) → crc bs < 2 ^ 32) (flags : Flags)
      → flags.enable_wal ≡ true
      → (ws ms : List Message) (b : Broker (LogState S))
      → (ran : Ran io crc json full active held laws Good kept unmarshal ws [] ms b)
      → length ws ≤ largest
      → (left : S)
      → Reopens io files left
          (map (log json crc) ran.log.segments ++ (log json crc ran.log.file ∷ []))
      → (b' : Broker (LogState S)) × (start io crc (λ m. some (json m)) unmarshal files flags left
          ≡ up b' (length ws))
        × Restored ws b'
  unfolding start replayed recovered recover
  start-Restored crc_bound flags on ws ms b ran few left h =
      let policy = policy_of flags.fsync in
      let w = next_wal policy (reopened left) in
      let (b', runs, restored) = restore_all-Restored (some (running w (reopened left))) 0 ws few in
      (
        b',
        if-true flags.enable_wal _ _ on
            ∙ ap (replayed io crc (λ m. some (json m)) unmarshal files)
                (open_wal-Reopens policy left _ h)
            ∙ ap
                (λ (r : ℕ × List Message). recovered (
                  Option.map (λ b'. (b', r.0))
                    (restore_all r.1 (Broker.new (some (running w (reopened left))) 0))))
                (found-replay crc_bound ws ms b ran left h)
            ∙ ap (λ o. recovered (Option.map (λ b'. (b', length ws)) o)) runs,
        restored,
      )
