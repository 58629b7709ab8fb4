-- ===== src/Topic/Failure.antt =====
-- internal/queue/topic.go: Nack of a message that has no retry left, and ReplayDeadLetter of it.
use mathlib.Core.Option
use vortexmq.Prelude.{
  Bool, true, false, none, some, [], ◌∷◌, ◌++◌, subst, if-false, Bytes, lookup, insert,
  lookup-insert_self, delete, add64, if-true, ◌≡◌, refl, ap,
}
use vortexmq.Int.{ℤ, pos}
use vortexmq.Ring
use vortexmq.Ring.Refine.{Refines, push-Refines}
use vortexmq.Deque.{Deque, room, do_push}
use vortexmq.Message.{Message, clone}
use vortexmq.Dlq
use vortexmq.Dlq.Contents.{remove-add}
use vortexmq.Group
use vortexmq.Group.{Group, PendingMessage, Action, dead_letter, failed, is_exhausted, settle}
use vortexmq.Topic.{Topic, nack, nacked_by, perform, refreshed, replay_dead_letter}

module _ (id reason : Bytes) (g : Group) (p : PendingMessage) (pending : lookup id g.pel ≡ some p)
    (spent : is_exhausted (failed p.message reason) ≡ true) where
  nack-spent :
      Group.nack id reason g
      ≡ some (
        record g { pel = delete id g.pel },
        true,
        dead_letter (failed p.message reason) reason ∷ [],
      )
  unfolding Group.nack settle
  nack-spent =
      rw (pending, Group.nack)
        (ap (Option.map (λ (a : Action). (record g { pel = delete id g.pel }, true, a ∷ [])))
          (if-true _ _ _ spent))

  -- The topic after the call, with the message in its dead letter queue.
  parted : Bytes → ℤ → Topic → Topic
  parted group failed_at t = record t {
    groups = insert group (record g { pel = delete id g.pel }) t.groups;
    dlq = Dlq.add (failed p.message reason) reason failed_at t.dlq;
    dead_lettered = add64 t.dead_lettered 1;
    nacked = add64 t.nacked 1;
  }

  module _ (group : Bytes) (failed_at : ℤ) (t : Topic)
      (found : lookup group t.groups ≡ some g) where
    nack-parted : nack group id reason failed_at t ≡ some (parted group failed_at t, true)
    unfolding nack nacked_by perform parted
    nack-parted = rw (found, nack) (ap (Option.map (λ r. nacked_by group failed_at r t)) nack-spent)

    replay-parted :
        (now : ℤ)
        → let m = refreshed (clone (failed p.message reason)) now in
          let t' = parted group failed_at t in
          replay_dead_letter p.message.id now t' ≡ (
            record t' { dlq = (Dlq.remove p.message.id t'.dlq).0; ring = (Ring.push m t'.ring).0 },
            some m,
          )
    unfolding replay_dead_letter parted failed
    replay-parted now = rw (stored, replay_dead_letter) refl
      where
        stored :
            (Dlq.remove p.message.id (Dlq.add (failed p.message reason) reason failed_at t.dlq)).1
            ≡ some (clone (failed p.message reason))
        stored = (remove-add t.dlq (failed p.message reason) reason failed_at).0

    -- On a topic whose ring is open, a pending message whose failure is its last goes from the group's
    -- pending list to the dead letter queue, and `ReplayDeadLetter` brings it back: a clone of it, with its
    -- payload and no retries counted, is in the topic's ring behind the messages that there is room for
    -- beside it, and in the dead letter queue no more.
    pub nack-replay_dead_letter :
        (d : Deque Message) (now : ℤ)
        → Refines t.ring d
        → d.closed ≡ false
        → let m = refreshed (clone (failed p.message reason)) now in
          (t' : Topic) × (t'' : Topic) × (nack group id reason failed_at t ≡ some (t', true))
          × (lookup group t'.groups ≡ some (record g { pel = delete id g.pel }))
          × (replay_dead_letter p.message.id now t' ≡ (t'', some m))
          × (m.payload ≡ p.message.payload)
          × (m.retry_count ≡ pos 0)
          × Refines t''.ring
              (record d { items = (room d).items ++ (m ∷ []); capacity = (room d).capacity })
          × (lookup p.message.id t''.dlq.entries ≡ none)
    unfolding parted failed refreshed clone do_push
    nack-replay_dead_letter d now f open_ring = (
      parted group failed_at t,
      record (parted group failed_at t) {
        dlq = (Dlq.remove p.message.id (parted group failed_at t).dlq).0;
        ring = (Ring.push m (parted group failed_at t).ring).0;
      },
      nack-parted,
      lookup-insert_self group (record g { pel = delete id g.pel }) t.groups,
      replay-parted now,
      refl,
      refl,
      subst (Refines (Ring.push m t.ring).0)
          (ap (λ (r : Deque Message × Bool). r.0) (if-false d.closed _ _ open_ring))
          (push-Refines m t.ring d f).0,
      (remove-add t.dlq (failed p.message reason) reason failed_at).1,
    )
      where
        m : Message
        m = refreshed (clone (failed p.message reason)) now
