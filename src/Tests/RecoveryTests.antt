-- ===== src/Tests/RecoveryTests.antt =====
-- cmd/vortexmq/main.go: a start on the files of a small log.
use vortexmq.Prelude.{ℕ, some, [], ◌∷◌, ◌++◌, map, Bytes, ◌≡◌}
use vortexmq.Wal.{Wal, close}
use vortexmq.Wal.Replay.{publications}
use vortexmq.Wal.Restart.{log_all}
use vortexmq.Broker
use vortexmq.Broker.{Broker}
use vortexmq.Recovery.{recover}
use vortexmq.Recovery.Order.{Stands, queue_of, empty_queue, recover-log_all}
use vortexmq.Tests.Samples.{letter}
use vortexmq.Tests.WalTests.{
  Directory, empty, finished, in_file, in_buffer, disk, disk-IsStorage, json, crc, unmarshal,
  crc-bound, events, events-AllFit, small, small-Keeps,
}

recover-log_all_example :
    (w : Wal) × (s : Directory) × (b : Broker ℕ) × (log_all json crc disk events small empty
      ≡ some (w, s))
    × (recover crc unmarshal
          (map some ((close disk w s).1.finished ++ ((close disk w s).1.file ∷ [])))
          (Broker.new (some 0) 5)
        ≡ some (b, 2))
    × ((name : Bytes) → Stands name b (queue_of name (letter ∷ letter ∷ []) empty_queue))
unfolding publications
recover-log_all_example =
    recover-log_all json crc disk finished in_file in_buffer disk-IsStorage unmarshal crc-bound
      (some 0) 5 events small empty events-AllFit small-Keeps
