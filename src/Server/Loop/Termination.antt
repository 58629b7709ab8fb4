-- ===== src/Server/Loop/Termination.antt =====
-- internal/network/server.go: the fuel of handleConnection's loop.
use vortexmq.Prelude.{ℕ, zero, suc, ◌<◌, length, Bytes, ◌≢◌, arith}
use vortexmq.Broker.{Broker}
use vortexmq.Resp.{Command, Read, failed, got, read_command}
use vortexmq.Resp.Progress.{Advances, read_command-Advances}
use vortexmq.Server.{Session, Parts, Done, next, skip, leave, asleep, crashed}
use vortexmq.Server.Loop.{
  End, Round, found, unfinished, after, after_read, handle, serve, handle_connection,
}

module _ {W : Type 0} (parts : Parts W) (password : Bytes) (rounds : ℕ → Round W) where
  after-ne-unfinished :
      (k : Session W → End W)
      → ((s : Session W) → k s ≢ unfinished)
      → (d : Done W) → after k d ≢ unfinished
  unfolding after
  after-ne-unfinished k h (next s) e = h s e
  after-ne-unfinished k h (skip s) e = h s e
  after-ne-unfinished k h (leave s) e = cc
  after-ne-unfinished k h (asleep s) e = cc
  after-ne-unfinished k h crashed e = cc

  after_read-ne-unfinished :
      (s : Session W) (k : Command → Bytes → End W) (n : ℕ) (r : Read Command)
      → Advances n r
      → ((c : Command) (rest : Bytes) → length rest < n → k c rest ≢ unfinished)
      → after_read s k r ≢ unfinished
  unfolding after_read
  after_read-ne-unfinished s k n (failed e) h h' = λ q. cc
  after_read-ne-unfinished s k n (got c rest) h h' = h' c rest h

  serve-ne-unfinished :
      (fuel i : ℕ) (bs : Bytes) (s : Session W)
      → length bs < fuel
      → serve parts password rounds fuel i bs s ≢ unfinished
  unfolding serve
  serve-ne-unfinished zero i bs s h = elim h [ ]
  serve-ne-unfinished (suc fuel) i bs s h =
      after_read-ne-unfinished s _ (length bs) (read_command parts.unicode bs)
        (read_command-Advances parts.unicode bs)
        (λ c rest h'.
          after-ne-unfinished (serve parts password rounds fuel (suc i) rest)
            (λ s'. serve-ne-unfinished fuel (suc i) rest s' (omega arith))
            (handle parts password (rounds i).env (rounds i).idle c (found (rounds i).between s)))

  -- The loop over a client's commands does not run out of its fuel, on any input: each command that is read
  -- takes a byte at least, so as many rounds as there are bytes, and one for the end of them, are enough.
  handle_connection-ne-unfinished :
      (bs : Bytes) (b : Broker W) → handle_connection parts password rounds bs b ≢ unfinished
  unfolding handle_connection
  handle_connection-ne-unfinished bs b = serve-ne-unfinished (suc (length bs)) 0 bs _ (omega arith)
