-- ===== src/Topic/Delivery.antt =====
-- internal/queue/topic.go: ConsumeGroup, between the ring and the pending list of a group.
use vortexmq.Prelude.{
  Option, none, some, List, ◌∷◌, Bytes, lookup, insert, lookup-insert_self, Option-cases, inl, inr,
  bytes_dec, if_pos, ◌≡◌, refl, sym, ap, ◌∙◌, subst,
}
use vortexmq.Int.{ℤ, pos}
use vortexmq.Ring
use vortexmq.Ring.Refine.{Refines}
use vortexmq.Ring.Pops.{pop-Refines}
use vortexmq.Deque.{Deque, do_pop-cons}
use vortexmq.Message.{Message}
use vortexmq.Group
use vortexmq.Group.{Group, PendingMessage}
use vortexmq.Group.Pending.{lookup-checkout}
use vortexmq.Topic.{
  Topic, put_ring, count_consumed, returned_some, get_or_create_group, check_out, consume_group,
}
use vortexmq.Topic.Ready.{consume_wait-waiting}

module _ (group : Bytes) (timeout : ℤ) (t : Topic) where
  -- The group is there, and the ring is the topic's.
  HasGroup : Topic × Group → Type 0
  HasGroup p = ((g : Group) × (lookup group p.0.groups ≡ some g)) × (p.0.ring ≡ t.ring)

  get_or_create_group-old :
      (g : Group) → lookup group t.groups ≡ some g → get_or_create_group group timeout t ≡ (t, g)
  unfolding get_or_create_group
  get_or_create_group-old g e = rw (e, get_or_create_group) refl

  get_or_create_group-new :
      lookup group t.groups ≡ none
      → get_or_create_group group timeout t ≡ (
        record t { groups = insert group (Group.new group t.name timeout) t.groups },
        Group.new group t.name timeout,
      )
  unfolding get_or_create_group
  get_or_create_group-new e = rw (e, get_or_create_group) refl

  get_or_create_group-HasGroup : HasGroup (get_or_create_group group timeout t)
  unfolding HasGroup
  get_or_create_group-HasGroup = elim (Option-cases (lookup group t.groups)) [
    | inl e ↦
        subst HasGroup (sym (get_or_create_group-new e))
          ((Group.new group t.name timeout, lookup-insert_self group _ t.groups), refl)
    | inr (g, e) ↦ subst HasGroup (sym (get_or_create_group-old g e)) ((g, e), refl)
  ]

check_out-found :
    (group consumer : Bytes) (now : ℤ) (t : Topic) (m : Message) (g : Group)
    → lookup group t.groups ≡ some g
    → check_out group consumer now (returned_some t m)
      ≡ returned_some
          (record t {
            groups = insert group (Group.checkout m consumer (pos 30000000000) now g).0 t.groups;
          })
          (Group.checkout m consumer (pos 30000000000) now g).1
unfolding check_out
check_out-found group consumer now t m g found = rw (found, check_out) refl

module _ (t : Topic) (d : Deque Message) (f : Refines t.ring d) (m : Message) (ms : List Message)
    (waiting : d.items ≡ m ∷ ms) where
  -- While a message waits in a topic, `ConsumeGroup` returns the oldest one without sleeping, for a
  -- group that exists as for a new one. The message is then pending in the group under its ID, in the
  -- name of its consumer and with its payload, and the ring holds the others in their order.
  pub consume_group-Refines :
      (group consumer : Bytes) (timeout now : ℤ) (wakes : List (ℤ × Topic))
      → (t' : Topic) × (g : Group) × (p : PendingMessage) × (consume_group group consumer timeout
            now t wakes
          ≡ returned_some t' p.message)
        × (lookup group t'.groups ≡ some g)
        × (lookup m.id g.pel ≡ some p)
        × (p.message.payload ≡ m.payload)
        × (p.consumer_id ≡ consumer)
        × Refines t'.ring (record d { items = ms })
  unfolding consume_group HasGroup count_consumed put_ring Group.checkout
  consume_group-Refines group consumer timeout now wakes =
      let ((g, found), same) = get_or_create_group-HasGroup group (pos 30000000000) t in
      let t1 = (get_or_create_group group (pos 30000000000) t).0 in
      let f1 : Refines t1.ring d = subst (λ r. Refines r d) (sym same) f in
      let t2 = count_consumed m (put_ring (Ring.pop t1.ring).0 t1) in
      let (g', m') = Group.checkout m consumer (pos 30000000000) now g in
      (
        record t2 { groups = insert group g' t2.groups },
        g',
        record {
          message = m';
          consumer_id = consumer;
          delivery_time = now;
          ack_deadline = m'.ack_deadline;
        },
        ap (check_out group consumer now) (consume_wait-waiting t1 d f1 m ms waiting timeout wakes)
            ∙ check_out-found group consumer now t2 m g found,
        lookup-insert_self group g' t2.groups,
        lookup-checkout m consumer (pos 30000000000) now g m.id
            ∙ if_pos (bytes_dec m.id m.id) refl _ _,
        refl,
        refl,
        subst (Refines (Ring.pop t1.ring).0)
            (ap (λ (q : Deque Message × Option Message). q.0) (do_pop-cons d m ms waiting))
            (pop-Refines t1.ring d f1).0,
      )
