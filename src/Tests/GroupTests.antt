-- ===== src/Tests/GroupTests.antt =====
-- internal/queue/consumer_group.go on a group with one pending message.
use vortexmq.Prelude.{◌≡◌, refl, arith, some, [], Bytes, IsMap, insert, insert-IsMap}
use vortexmq.Int.{pos, wrap64, ◌+ℤ◌}
use vortexmq.Text.{codes}
use vortexmq.Group.{Group, new, checkout, backoff, sweep_timeouts, sweep_loop}
use vortexmq.Group.Backoff.{backoff-zero}
use vortexmq.Tests.Samples.{letter}

abbrev worker : Bytes
worker = codes "w1"

abbrev busy : Group
busy = (checkout letter worker (pos 30) (pos 5) (new (codes "g") (codes "orders") (pos 0))).0

backoff-zero_example : backoff (pos 57) ≡ some (pos 0)
backoff-zero_example = backoff-zero 56 (omega arith) (omega arith)

busy-IsMap : IsMap busy.pel
unfolding checkout new
busy-IsMap = insert-IsMap letter.id _ [] tt

-- A sweep at the deadline takes the message out.
sweeps : (sweep_timeouts (pos 35) busy).1 ≡ 1
unfolding sweep_timeouts sweep_loop checkout new insert wrap64 ◌+ℤ◌
sweeps = refl
