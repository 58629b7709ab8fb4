-- ===== src/Broker/Sweep.antt =====
-- internal/queue/broker.go: runSweepLoop, and what a tick of it leaves pending.
use mathlib.Core.Option
use vortexmq.Prelude.{
  some, List, [], ◌∷◌, map, ite, Bytes, Map, bytes_dec, lookup, IsMap, ◌≡◌, ap, ◌∙◌,
}
use vortexmq.Int.{ℤ}
use vortexmq.Waiting.{Turn, ticks, quits}
use vortexmq.Group
use vortexmq.Group.{Group}
use vortexmq.Group.Pending.{unless_expired, sweep_timeouts_lem}
use vortexmq.Topic
use vortexmq.Topic.{Topic}
use vortexmq.Topic.Sweep.{sweep_consumer_timeouts-lookup}
use vortexmq.Broker.{Broker, sweep_all_timeouts}

module _ {W : Type 0} where
  -- `runSweepLoop`: each turn finds the broker as the other goroutines have left it, and has the times
  -- at which it sweeps each group of each topic, and that of the dead letters.
  unfoldable pub run_sweep_loop :
      List (Turn × (Broker W → Broker W) × (Bytes → Bytes → ℤ) × ℤ) → Broker W → Broker W
  run_sweep_loop [] found = found
  run_sweep_loop ((ticks, others, now, failed_at) ∷ turns) found =
      run_sweep_loop turns (sweep_all_timeouts now failed_at (others found))
  run_sweep_loop ((quits, others, now, failed_at) ∷ turns) found = others found

lookup-map_values :
    {V : Type 0} (f : Bytes → V → V) (k : Bytes) (m : Map V) (v : V)
    → lookup k m ≡ some v
    → lookup k (map (λ e. (e.0, f e.0 e.1)) m) ≡ some (f k v)
unfolding lookup
lookup-map_values f k [] v e = absurd (cc)
lookup-map_values f k ((j, u) ∷ m) v e = one (bytes_dec j k) e (λ h. lookup-map_values f k m v h)
  where
    one :
        (x : Dec (j ≡ k))
        → ite x (some u) (lookup k m) ≡ some v
        → (lookup k m ≡ some v → lookup k (map (λ e. (e.0, f e.0 e.1)) m) ≡ some (f k v))
        → ite x (some (f j u)) (lookup k (map (λ e. (e.0, f e.0 e.1)) m)) ≡ some (f k v)
    one (yes p) h rest = ap (λ i. some (f i u)) p ∙ ap (Option.map (f k)) h
    one (no ne) h rest = rest h

-- A tick of the loop takes out of every group of every topic exactly the pending messages whose
-- deadline is not after the time at which the group is swept; every other one is pending as it was.
pub run_sweep_loop-expired :
    {W : Type 0} (now : Bytes → Bytes → ℤ) (failed_at : ℤ) (b : Broker W) (name group : Bytes)
    (t : Topic) (g : Group)
    → lookup name b.topics ≡ some t
    → lookup group t.groups ≡ some g
    → IsMap g.pel
    → (t' : Topic) × (g' : Group) × (lookup name
          (run_sweep_loop ((ticks, (λ found. found), now, failed_at) ∷ []) b).topics
        ≡ some t')
      × (lookup group t'.groups ≡ some g')
      × ((id : Bytes) → lookup id g'.pel ≡ unless_expired (now name group) (lookup id g.pel))
unfolding run_sweep_loop sweep_all_timeouts
run_sweep_loop-expired now failed_at b name group t g has_topic has_group u = (
  (Topic.sweep_consumer_timeouts (now name) failed_at t).0,
  (Group.sweep_timeouts (now name group) g).0,
  lookup-map_values (λ n t. (Topic.sweep_consumer_timeouts (now n) failed_at t).0) name b.topics t
      has_topic,
  sweep_consumer_timeouts-lookup (now name) failed_at group g t has_group u,
  (sweep_timeouts_lem (now name group) g u).0,
)
