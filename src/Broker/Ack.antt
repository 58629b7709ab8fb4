-- ===== src/Broker/Ack.antt =====
-- internal/queue/broker.go: Ack, with what it counts and what it logs.
use vortexmq.Prelude.{
  true, false, none, some, Bytes, lookup, insert, delete, add64, lookup-insert_self, lookup-delete,
  bytes_dec, if_pos, ◌≡◌, refl, ap, ◌∙◌,
}
use vortexmq.Group
use vortexmq.Group.{Group, PendingMessage}
use vortexmq.Group.Pending.{ack-absent}
use vortexmq.Topic
use vortexmq.Topic.{Topic, acked_by}
use vortexmq.Broker.{Broker, BrokerWal, put_topic, write_ack, acked, ack}

Topic-ack_found :
    (group id : Bytes) (t : Topic) (g : Group)
    → lookup group t.groups ≡ some g
    → Topic.ack group id t ≡ acked_by group (Group.ack id g) t
unfolding Topic.ack
Topic-ack_found group id t g found = rw (found, Topic.ack) refl

module _ {W : Type 0} (io : BrokerWal W) (name group id : Bytes) where
  write_ack-topics : (b : Broker W) → (write_ack io name group id b).topics ≡ b.topics
  unfolding write_ack
  write_ack-topics b =
      elim b.wal
        as (λ x.
          (elim x as (λ _. Broker W) [
            | none ↦ b
            | some w ↦ record b { wal = some (io.write_ack name group id w).0 }
          ]).topics
          ≡ b.topics) [ none ↦ refl | some w ↦ refl ]

  write_ack-total_acked :
      (b : Broker W) → (write_ack io name group id b).total_acked ≡ b.total_acked
  unfolding write_ack
  write_ack-total_acked b =
      elim b.wal
        as (λ x.
          (elim x as (λ _. Broker W) [
            | none ↦ b
            | some w ↦ record b { wal = some (io.write_ack name group id w).0 }
          ]).total_acked
          ≡ b.total_acked) [ none ↦ refl | some w ↦ refl ]

  ack-found :
      (b : Broker W) (t : Topic)
      → lookup name b.topics ≡ some t
      → ack io name group id b ≡ acked io name group id (Topic.ack group id t) b
  unfolding ack
  ack-found b t found = rw (found, ack) refl

  module _ (b : Broker W) (t : Topic) (found : lookup name b.topics ≡ some t) (g : Group)
      (member : lookup group t.groups ≡ some g) (p : PendingMessage)
      (pending : lookup id g.pel ≡ some p) where
    rid : Group
    rid = record g { pel = delete id g.pel }

    after : Topic
    after = record t { groups = insert group rid t.groups; acked = add64 t.acked 1 }

    counted : Broker W
    counted = let b' = put_topic name after b in record b' { total_acked = add64 b.total_acked 1 }

    Topic-ack_pending : Topic.ack group id t ≡ (after, true)
    unfolding Group.ack acked_by after rid
    Topic-ack_pending = Topic-ack_found group id t g member ∙ ap (λ r. acked_by group r t) taken
      where
        taken : Group.ack id g ≡ (record g { pel = delete id g.pel }, true)
        taken = rw (pending, Group.ack) refl

    write_ack-counted :
        (write_ack io name group id counted).wal ≡ (write_ack io name group id b).wal
    unfolding write_ack counted put_topic
    write_ack-counted =
        elim b.wal
          as (λ x.
            (elim x as (λ _. Broker W) [
              | none ↦ counted
              | some w ↦ record counted { wal = some (io.write_ack name group id w).0 }
            ]).wal
            ≡ (elim x as (λ _. Broker W) [
              | none ↦ b
              | some w ↦ record b { wal = some (io.write_ack name group id w).0 }
            ]).wal) [ none ↦ refl | some w ↦ refl ]

    Topic-ack_again : Topic.ack group id after ≡ (after, false)
    unfolding acked_by after rid
    Topic-ack_again =
        Topic-ack_found group id after rid (lookup-insert_self group rid t.groups)
        ∙ ap (λ r. acked_by group r after)
            (ack-absent id rid (lookup-delete id id g.pel ∙ if_pos (bytes_dec id id) refl _ _))

    -- An acknowledgement of a pending message succeeds, is counted, and is what the log is told of;
    -- the same call again fails, counts nothing and logs nothing.
    pub ack-ack :
        (b' : Broker W) × (b'' : Broker W) × (ack io name group id b ≡ (b', true))
        × (b'.total_acked ≡ add64 b.total_acked 1)
        × (b'.wal ≡ (write_ack io name group id b).wal)
        × (ack io name group id b' ≡ (b'', false))
        × (b''.total_acked ≡ b'.total_acked)
        × (b''.wal ≡ b'.wal)
    unfolding acked counted put_topic
    ack-ack = (
      write_ack io name group id counted,
      put_topic name after (write_ack io name group id counted),
      ack-found b t found ∙ ap (λ r. acked io name group id r b) Topic-ack_pending,
      write_ack-total_acked counted,
      write_ack-counted,
      ack-found (write_ack io name group id counted) after
            (ap (lookup name) (write_ack-topics counted) ∙ lookup-insert_self name after b.topics)
          ∙ ap (λ r. acked io name group id r (write_ack io name group id counted)) Topic-ack_again,
      refl,
      refl,
    )
