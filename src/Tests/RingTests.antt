-- ===== src/Tests/RingTests.antt =====
-- internal/queue/ring.go on small buffers whose counters go round at 2 ^ 64.
use vortexmq.Prelude.{
  ℕ, ◌-◌, ◌*◌, ◌^◌, ◌≤◌, ◌<◌, ◌≡◌, ◌≢◌, refl, arith, false, true, none, some, List, [], ◌∷◌, map,
}
use vortexmq.Int.{pos}
use vortexmq.Deque
use vortexmq.Deque.{Deque, Call, Reply, done, got, batch, count, map_reply}
use vortexmq.Ring
use vortexmq.Ring.{Ring, new_with}
use vortexmq.Ring.Refine.{Refines}
use vortexmq.Ring.Calls.{serve_all, serve_all-Refines}
use vortexmq.Ring.New.{new_with-Refines}

-- 9 in the last slot, then 8 in the first: the head is about to wrap.
abbrev wrapped : Ring ℕ
wrapped = record {
  nodes = some 8 ∷ some 9 ∷ [];
  head = 2 ^ 64 - 1;
  tail = 1;
  mask = 1;
  capacity = 2;
  closed = false;
}

abbrev queue : Deque ℕ
queue = record { items = 9 ∷ 8 ∷ []; capacity = 2; closed = false }

wrapped-Refines : Refines wrapped queue
wrapped-Refines = record {
  holds = record {
    shape = record {
      log = 1;
      log_le = omega arith;
      capacity_eq = refl;
      capacity_le = omega arith;
      capacity_pos = omega arith;
      mask_eq = refl;
      storage = refl;
    };
    head_word = omega arith;
    tail_eq = refl;
    fits = omega arith;
    items = refl;
  };
  capacity_eq = refl;
  closed_eq = refl;
}

-- A push that grows the buffer, one at the front, a batch, and calls on a closed buffer.
abbrev calls : List (Call ℕ)
calls =
    Call.push 7
    ∷ Call.push_front 6
    ∷ Call.pop
    ∷ Call.pop_batch (pos 2)
    ∷ Call.len
    ∷ Call.close
    ∷ Call.push 5
    ∷ Call.pop
    ∷ Call.pop
    ∷ []

serve_all_run :
    serve_all calls wrapped
    ≡ done true
      ∷ done true
      ∷ got (some (some 6))
      ∷ batch (some 9 ∷ some 8 ∷ [])
      ∷ count 1
      ∷ done true
      ∷ done false
      ∷ got (some (some 7))
      ∷ got none
      ∷ []
unfolding serve_all Ring.Calls.serve Ring.push Ring.push_front Ring.make_room Ring.make_room_front
    Ring.store Ring.store_front Ring.grow Ring.copy_from Ring.pop Ring.pop_batch Ring.pop_up_to
    Ring.pop_loop Ring.take_head Ring.len Ring.close
serve_all_run = refl

serve_all-Refines_example :
    serve_all calls wrapped ≡ map (map_reply some) (Deque.serve_all calls queue)
serve_all-Refines_example = serve_all-Refines calls wrapped-Refines

new_with-Refines_example :
    (r : Ring ℕ) × (new_with 64 131072 ≡ some r)
    × Refines r (record { items = []; capacity = r.capacity; closed = false })
    × (131072 ≤ r.capacity)
    × (1024 ≤ r.capacity)
    × (r.capacity ≢ 1024 → r.capacity < 131072 * 2)
new_with-Refines_example = new_with-Refines 131072 (omega arith)
