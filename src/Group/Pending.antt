-- ===== src/Group/Pending.antt =====
-- internal/queue/consumer_group.go: the pending entries list under checkout, ack, nack and the sweep.
use vortexmq.Prelude.{
  ◌+◌, ◌≡◌, refl, ap, ◌∙◌, sym, arith, inl, inr, ite, if_pos, if_neg, subst, true, false, Option,
  none, some, List, [], ◌∷◌, map, length, length-map, Bool-cases, Option-cases, if◌then◌else◌,
  if-true, if-false, Bytes, bytes_dec, Map, IsMap, lookup, lookup-insert, lookup-delete,
}
use vortexmq.Int.{ℤ}
use vortexmq.Message.{Message}
use vortexmq.Group.{
  PendingMessage, Group, checkout, ack, nack, sweep_loop, sweep_timeouts, is_expired, time_out,
  pending_count,
}

-- A message that is checked out is pending under its ID, for that consumer, as the consumer has it.
pub lookup-checkout :
    (m : Message) (consumer : Bytes) (custom now : ℤ) (g : Group) (j : Bytes)
    → lookup j (checkout m consumer custom now g).0.pel
      ≡ ite
          (bytes_dec m.id j)
          (some (record {
            message = (checkout m consumer custom now g).1;
            consumer_id = consumer;
            delivery_time = now;
            ack_deadline = (checkout m consumer custom now g).1.ack_deadline;
          }))
          (lookup j g.pel)
unfolding checkout
lookup-checkout m consumer custom now g j = lookup-insert m.id j _ g.pel

module _ (id : Bytes) (g : Group) where
  lookup-ack : (j : Bytes) → lookup j (ack id g).0.pel ≡ ite (bytes_dec id j) none (lookup j g.pel)
  unfolding ack
  lookup-ack j = elim (Option-cases (lookup id g.pel)) [
    | inl e ↦ rw (e, ack) (absent e)
    | inr (p, e) ↦ rw (e, ack) (lookup-delete id j g.pel)
  ]
    where
      absent : lookup id g.pel ≡ none → lookup j g.pel ≡ ite (bytes_dec id j) none (lookup j g.pel)
      absent e = elim (bytes_dec id j) [
        | yes p ↦ rw (if_pos (bytes_dec id j) p) (ap (λ k. lookup k g.pel) (sym p) ∙ e)
        | no p ↦ sym (if_neg (bytes_dec id j) p _ _)
      ]

  pub ack-absent : lookup id g.pel ≡ none → ack id g ≡ (g, false)
  unfolding ack
  ack-absent e = rw (e, ack) refl

  nack-absent : (reason : Bytes) → lookup id g.pel ≡ none → nack id reason g ≡ some (g, false, [])
  unfolding nack
  nack-absent reason e = rw (e, nack) refl

-- Once an `Ack` has been made for an ID, another `Ack` or a `Nack` for it is refused, changes nothing
-- and calls nothing, until it is checked out again.
ack-once :
    (id reason : Bytes) (g : Group)
    → (ack id (ack id g).0 ≡ ((ack id g).0, false))
      × (nack id reason (ack id g).0 ≡ some ((ack id g).0, false, []))
ack-once id reason g = (ack-absent id (ack id g).0 gone, nack-absent id (ack id g).0 reason gone)
  where
    gone : lookup id (ack id g).0.pel ≡ none
    gone = lookup-ack id g id ∙ if_pos (bytes_dec id id) refl _ _

-- What the sweep leaves of an entry.
abbrev pub unless_expired : ℤ → Option PendingMessage → Option PendingMessage
unless_expired now none = none
unless_expired now (some p) = if is_expired now p then none else some p

module _ (now : ℤ) where
  module _ (id : Bytes) (p : PendingMessage) (m : Map PendingMessage) where
    sweep_loop-out :
        is_expired now p ≡ true
        → sweep_loop now ((id, p) ∷ m) ≡ (p.message ∷ (sweep_loop now m).0, (sweep_loop now m).1)
    unfolding sweep_loop
    sweep_loop-out e = if-true (is_expired now p) _ _ e

    sweep_loop-kept :
        is_expired now p ≡ false
        → sweep_loop now ((id, p) ∷ m) ≡ ((sweep_loop now m).0, (id, p) ∷ (sweep_loop now m).1)
    unfolding sweep_loop
    sweep_loop-kept e = if-false (is_expired now p) _ _ e

    lookup-here : (j : Bytes) → id ≡ j → lookup j ((id, p) ∷ m) ≡ some p
    unfolding lookup
    lookup-here j e = if_pos (bytes_dec id j) e _ _

    lookup-past : (j : Bytes) → ¬ (id ≡ j) → lookup j ((id, p) ∷ m) ≡ lookup j m
    unfolding lookup
    lookup-past j e = if_neg (bytes_dec id j) e _ _

  lookup-sweep_loop :
      (m : Map PendingMessage) (j : Bytes)
      → IsMap m
      → lookup j (sweep_loop now m).1 ≡ unless_expired now (lookup j m)
  unfolding sweep_loop lookup
  lookup-sweep_loop [] j u = refl
  lookup-sweep_loop ((id, p) ∷ m) j u = elim (Bool-cases (is_expired now p)) [
    | inl e ↦
        ap (λ r. lookup j r.1) (sweep_loop-out id p m e)
        ∙ lookup-sweep_loop m j u.1
        ∙ elim (bytes_dec id j) [
          | yes q ↦
              ap (unless_expired now) (ap (λ k. lookup k m) (sym q) ∙ u.0)
              ∙ sym (
                  ap (unless_expired now) (lookup-here id p m j q)
                  ∙ if-true (is_expired now p) _ _ e)
          | no q ↦ ap (unless_expired now) (sym (lookup-past id p m j q))
        ]
    | inr e ↦ ap (λ r. lookup j r.1) (sweep_loop-kept id p m e) ∙ elim (bytes_dec id j) [
      | yes q ↦
          lookup-here id p (sweep_loop now m).1 j q
          ∙ sym
              (ap (unless_expired now) (lookup-here id p m j q) ∙ if-false (is_expired now p) _ _ e)
      | no q ↦
          lookup-past id p (sweep_loop now m).1 j q
          ∙ lookup-sweep_loop m j u.1
          ∙ ap (unless_expired now) (sym (lookup-past id p m j q))
    ]
  ]

  length-sweep_loop :
      (m : Map PendingMessage)
      → length (sweep_loop now m).0 + length (sweep_loop now m).1 ≡ length m
  unfolding sweep_loop
  length-sweep_loop [] = omega arith
  length-sweep_loop ((id, p) ∷ m) = elim (Bool-cases (is_expired now p)) [
    | inl e ↦
        ap (λ r. length r.0 + length r.1) (sweep_loop-out id p m e)
        ∙ omega (arith, length-sweep_loop m)
    | inr e ↦
        ap (λ r. length r.0 + length r.1) (sweep_loop-kept id p m e)
        ∙ omega (arith, length-sweep_loop m)
  ]

  sweep_loop-idle :
      (m : Map PendingMessage) → sweep_loop now (sweep_loop now m).1 ≡ ([], (sweep_loop now m).1)
  unfolding sweep_loop
  sweep_loop-idle [] = refl
  sweep_loop-idle ((id, p) ∷ m) = elim (Bool-cases (is_expired now p)) [
    | inl e ↦ subst Idle (sym (sweep_loop-out id p m e)) (sweep_loop-idle m)
    | inr e ↦ subst Idle (sym (sweep_loop-kept id p m e)) (
        sweep_loop-kept id p (sweep_loop now m).1 e
        ∙ ap (λ r. (r.0, (id, p) ∷ r.1)) (sweep_loop-idle m))
  ]
    where
      Idle : List Message × Map PendingMessage → Type 0
      Idle r = sweep_loop now r.1 ≡ ([], r.1)

-- The sweep at time `now` takes out exactly the entries whose deadline is not after `now`: every
-- other entry is still there as it was. It makes one call for each entry that it takes out, reports
-- their number, and a second sweep at the same time finds nothing.
pub sweep_timeouts_lem :
    (now : ℤ) (g : Group)
    → IsMap g.pel
    → let (g', n, actions) = sweep_timeouts now g in
      ((j : Bytes) → lookup j g'.pel ≡ unless_expired now (lookup j g.pel))
      × (n + pending_count g' ≡ pending_count g)
      × (length actions ≡ n)
      × (sweep_timeouts now g' ≡ (g', 0, []))
unfolding sweep_timeouts pending_count
sweep_timeouts_lem now g u = (
  λ j. lookup-sweep_loop now g.pel j u,
  length-sweep_loop now g.pel,
  length-map time_out (sweep_loop now g.pel).0,
  ap (λ r. (record g { pel = r.1 }, length r.0, map time_out r.0)) (sweep_loop-idle now g.pel),
)
