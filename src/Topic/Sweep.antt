-- ===== src/Topic/Sweep.antt =====
-- internal/queue/topic.go: what SweepConsumerTimeouts leaves pending.
use mathlib.Core.Option.{none-ne-some}
use vortexmq.Prelude.{
  ℕ, some, Option-cases, inl, inr, List, [], ◌∷◌, map, ite, Bytes, Map, bytes_dec, lookup,
  lookup-insert_self, lookup-insert_ne, IsMap, ◌≡◌, ◌≢◌, refl, sym, ap, ◌∙◌, subst,
}
use vortexmq.Int.{ℤ}
use vortexmq.Message.{Message}
use vortexmq.Ring
use vortexmq.Wheel
use vortexmq.Group
use vortexmq.Group.{Group, Action, retry, dead_letter}
use vortexmq.Group.Pending.{sweep_timeouts_lem}
use vortexmq.Topic.{
  Topic, perform, schedule, expire, put_ring, sweep_group, sweep_groups, sweep_consumer_timeouts,
}

expire-groups : (ms : List Message) (t : Topic) → (expire ms t).groups ≡ t.groups
unfolding expire put_ring
expire-groups [] t = refl
expire-groups (m ∷ ms) t = expire-groups ms (put_ring (Ring.push m t.ring).0 t)

perform-groups :
    (failed_at : ℤ) (actions : List Action) (t : Topic)
    → (perform failed_at actions t).groups ≡ t.groups
unfolding perform schedule
perform-groups failed_at [] t = refl
perform-groups failed_at (retry m delay ∷ actions) t =
    perform-groups failed_at actions (schedule m delay t)
    ∙ expire-groups (Wheel.add m delay t.tw).1 (record t { tw = (Wheel.add m delay t.tw).0 })
perform-groups failed_at (dead_letter m cause ∷ actions) t = perform-groups failed_at actions _

module _ (now : Bytes → ℤ) (failed_at : ℤ) (name : Bytes) where
  abbrev swept : Group → Group
  swept g = (Group.sweep_timeouts (now name) g).0

  sweep_group_self :
      (g : Group) (t : Topic)
      → lookup name t.groups ≡ some g
      → lookup name (sweep_group name (now name) failed_at t).0.groups ≡ some (swept g)
  unfolding sweep_group
  sweep_group_self g t e =
      rw (e, sweep_group)
        (ap (lookup name) (perform-groups failed_at (Group.sweep_timeouts (now name) g).2 _)
          ∙ lookup-insert_self name (swept g) t.groups)

  sweep_group_other :
      (other : Bytes) (t : Topic)
      → other ≢ name
      → lookup name (sweep_group other (now other) failed_at t).0.groups ≡ lookup name t.groups
  unfolding sweep_group
  sweep_group_other other t ne = elim (Option-cases (lookup other t.groups)) [
    | inl e ↦ rw (e, sweep_group) refl
    | inr (g, e) ↦
        rw (e, sweep_group)
          (ap (lookup name) (perform-groups failed_at (Group.sweep_timeouts (now other) g).2 _)
            ∙ lookup-insert_ne other name (Group.sweep_timeouts (now other) g).0 t.groups ne)
  ]

  -- What is swept stays so.
  sweep_groups_stays :
      (names : List Bytes) (g : Group) (t : Topic)
      → swept g ≡ g
      → lookup name t.groups ≡ some g
      → lookup name (sweep_groups names now failed_at t).0.groups ≡ some g
  unfolding sweep_groups
  sweep_groups_stays [] g t idle e = e
  sweep_groups_stays (other ∷ names) g t idle e =
      sweep_groups_stays names g (sweep_group other (now other) failed_at t).0 idle
        (elim (bytes_dec other name) [
          | yes p ↦
              subst (λ x. lookup name (sweep_group x (now x) failed_at t).0.groups ≡ some g) (sym p)
                (sweep_group_self g t e ∙ ap some idle)
          | no ne ↦ sweep_group_other other t ne ∙ e
        ])

  sweep_groups-swept :
      (m : Map Group) (g0 g : Group) (t : Topic)
      → swept (swept g) ≡ swept g
      → lookup name m ≡ some g0
      → lookup name t.groups ≡ some g
      → lookup name (sweep_groups (map (λ e. e.0) m) now failed_at t).0.groups ≡ some (swept g)
  unfolding sweep_groups lookup
  sweep_groups-swept [] g0 g t idle has e = absurd (none-ne-some g0 has)
  sweep_groups-swept ((k, v) ∷ m) g0 g t idle has e =
      one (bytes_dec k name) has
        (λ h e'. sweep_groups-swept m g0 g (sweep_group k (now k) failed_at t).0 idle h e')
    where
      one :
          (x : Dec (k ≡ name))
          → ite x (some v) (lookup name m) ≡ some g0
          → (lookup name m ≡ some g0
              → lookup name (sweep_group k (now k) failed_at t).0.groups ≡ some g
              → lookup name
                  (sweep_groups
                    (map (λ e. e.0) m)
                    now
                    failed_at
                    (sweep_group k (now k) failed_at t).0).0.groups
                ≡ some (swept g))
          → lookup name
              (sweep_groups
                (map (λ e. e.0) m)
                now
                failed_at
                (sweep_group k (now k) failed_at t).0).0.groups
            ≡ some (swept g)
      one (yes p) h rest =
          sweep_groups_stays (map (λ e. e.0) m) (swept g) (sweep_group k (now k) failed_at t).0 idle
            (subst (λ x. lookup name (sweep_group x (now x) failed_at t).0.groups ≡ some (swept g))
              (sym p) (sweep_group_self g t e))
      one (no ne) h rest = rest h (sweep_group_other k t ne ∙ e)

-- The sweep of a topic is the sweep of each of its groups.
pub sweep_consumer_timeouts-lookup :
    (now : Bytes → ℤ) (failed_at : ℤ) (name : Bytes) (g : Group) (t : Topic)
    → lookup name t.groups ≡ some g
    → IsMap g.pel
    → lookup name (sweep_consumer_timeouts now failed_at t).0.groups
      ≡ some (Group.sweep_timeouts (now name) g).0
unfolding sweep_consumer_timeouts
sweep_consumer_timeouts-lookup now failed_at name g t e u =
    sweep_groups-swept now failed_at name t.groups g g t
      (ap (λ (r : Group × ℕ × List Action). r.0) (sweep_timeouts_lem (now name) g u).3) e e
