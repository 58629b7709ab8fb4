-- ===== src/Tests/ChannelsTests.antt =====
-- internal/queue/broker.go: a broadcast to two subscribers, one of which has left.
use vortexmq.Prelude.{true, false, ℕ, ◌≤◌, some, [], ◌∷◌, lookup, insert, inl, ◌≡◌, refl}
use vortexmq.Text.{codes}
use vortexmq.Channels.{
  Channels, offer, offer_at, offer_all, send_to, broadcast, places, subscribe_channel, without,
  close_at, put_subs, leave, unsubscribe_channel,
}
use vortexmq.Channels.Safety.{IsReached, at_start, subscribes, unsubscribes, broadcast-IsReached}

abbrev one_listener : Channels
one_listener = record {
  subs = (codes "news", 1 ∷ []) ∷ [];
  heap = record { buffer = []; closed = true } ∷ record { buffer = []; closed = false } ∷ [];
}

one_listener-IsReached : IsReached one_listener
unfolding subscribe_channel unsubscribe_channel leave without close_at put_subs places lookup insert
one_listener-IsReached =
    unsubscribes (codes "news") 0 _ one_listener
      (subscribes (codes "news") _ (subscribes (codes "news") _ at_start)) (inl refl) refl

broadcast-IsReached_example :
    (cs : Channels) × (n : ℕ) × (broadcast (codes "news") (some (codes "hi")) one_listener
      ≡ some (cs, n))
    × (n ≤ 1)
unfolding places lookup
broadcast-IsReached_example =
    broadcast-IsReached one_listener one_listener-IsReached (codes "news") (some (codes "hi"))

broadcast_run :
    broadcast (codes "news") (some (codes "hi")) one_listener
    ≡ some (
      record one_listener {
        heap =
            record { buffer = []; closed = true }
            ∷ record { buffer = some (codes "hi") ∷ []; closed = false }
            ∷ [];
      },
      1,
    )
unfolding broadcast send_to offer_all offer_at offer lookup
broadcast_run = refl
