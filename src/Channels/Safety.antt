-- ===== src/Channels/Safety.antt =====
-- internal/queue/broker.go: the broadcast channels, used as SubscribeChannel's callers can.
use mathlib.Core.Option
use vortexmq.Prelude.{
  some-value, ℕ, ◌≤◌, true, Option, none, some, List, if-false, set, length, Bytes, bytes_dec,
  lookup, inl, inr, ◌⊎◌, ◌≡◌, ◌≢◌, refl, sym, ap, ◌∙◌, subst, arith,
}
use vortexmq.Channels.{
  Chan, Channels, no_channels, send_to, broadcast, places, subscribers, subscribe_channel, without,
  close_at, put_subs, leave, unsubscribe_channel,
}
use vortexmq.Channels.Sends.{
  In, IsOpen, IsOpen-get, IsOpen-set_ne, IsOpen-append, IsOpen-last, IsOpen-lt, offer_all-Sends,
}
use vortexmq.Channels.Members.{In-append, In-without, places-insert, places-put_subs, In-ite}

-- Every subscriber's channel is open, and stands in one set.
pub record IsValid (cs : Channels) : Type 0 where
  pub live : (channel : Bytes) (i : ℕ) → In i (subscribers channel cs) → IsOpen cs.heap i
  pub apart : (a b : Bytes) (i : ℕ) → In i (subscribers a cs) → In i (subscribers b cs) → a ≡ b

-- What the callers of the broker can do: an unsubscription is of a channel that has been handed out for
-- that name, and is not yet unsubscribed.
pub data IsReached : Channels → Type 0 where
  at_start : IsReached no_channels
  subscribes :
      (channel : Bytes) (cs : Channels) → IsReached cs → IsReached (subscribe_channel channel cs).0
  unsubscribes :
      (channel : Bytes) (i : ℕ) (cs cs' : Channels)
      → IsReached cs
      → In i (subscribers channel cs)
      → unsubscribe_channel channel i cs ≡ some cs'
      → IsReached cs'
  broadcasts :
      (channel : Bytes) (payload : Option Bytes) (cs cs' : Channels) (n : ℕ)
      → IsReached cs
      → broadcast channel payload cs ≡ some (cs', n)
      → IsReached cs'

module _ (cs : Channels) (valid : IsValid cs) where
  module _ (channel : Bytes) where
    subscribed : Channels
    subscribed = (subscribe_channel channel cs).0

    In-subscribed :
        (name : Bytes) (i : ℕ)
        → In i (subscribers name subscribed)
        → In i (subscribers name cs) ⊎ ((channel ≡ name) × (length cs.heap ≡ i))
    unfolding subscribed subscribe_channel
    In-subscribed name i m =
        elim (In-ite channel name i _ _ (bytes_dec channel name)
          (subst (In i) (places-insert channel name _ cs.subs) m)) [
            | inr (p, q) ↦ inl q
            | inl (p, q) ↦ elim (In-append i (length cs.heap) (subscribers channel cs) q) [
              | inl r ↦ inl (subst (λ n. In i (subscribers n cs)) p r)
              | inr r ↦ inr (p, r)
            ]
          ]

    subscribed-apart :
        (a b : Bytes) (i : ℕ)
        → In i (subscribers a cs) ⊎ ((channel ≡ a) × (length cs.heap ≡ i))
        → In i (subscribers b cs) ⊎ ((channel ≡ b) × (length cs.heap ≡ i))
        → a ≡ b
    subscribed-apart a b i (inl m) (inl n) = valid.apart a b i m n
    subscribed-apart a b i (inl m) (inr (p, e)) =
        absurd (omega (arith, IsOpen-lt cs.heap i (valid.live a i m), e))
    subscribed-apart a b i (inr (p, e)) (inl n) =
        absurd (omega (arith, IsOpen-lt cs.heap i (valid.live b i n), e))
    subscribed-apart a b i (inr (p, e)) (inr (q, f)) = sym p ∙ q

    subscribed-live :
        (name : Bytes) (i : ℕ)
        → In i (subscribers name cs) ⊎ ((channel ≡ name) × (length cs.heap ≡ i))
        → IsOpen subscribed.heap i
    unfolding subscribed subscribe_channel
    subscribed-live name i (inl m) = IsOpen-append cs.heap _ i (valid.live name i m)
    subscribed-live name i (inr (p, e)) =
        subst (IsOpen subscribed.heap) e (IsOpen-last cs.heap _ refl)

    subscribed-IsValid : IsValid subscribed
    subscribed-IsValid = record {
      live = λ name i m. subscribed-live name i (In-subscribed name i m);
      apart = λ a b i m n. subscribed-apart a b i (In-subscribed a i m) (In-subscribed b i n);
    }

  module _ (channel : Bytes) (i : ℕ) (member : In i (subscribers channel cs)) where
    -- The channels when one has been unsubscribed.
    left : Chan → Channels
    left c = record {
      subs = put_subs channel (without i (subscribers channel cs)) cs.subs;
      heap = set cs.heap i (record c { closed = true });
    }

    close_at-open :
        (c : Chan) × (close_at i cs.heap ≡ some (set cs.heap i (record c { closed = true })))
    unfolding close_at
    close_at-open =
        let (c, found, e) = IsOpen-get cs.heap i (valid.live channel i member) in
        (c, rw (found, close_at) (if-false _ _ _ e))

    leave-left :
        (o : Option (List ℕ))
        → lookup channel cs.subs ≡ o
        → (c : Chan) × (leave channel i o cs ≡ some (left c))
    unfolding leave left places
    leave-left none e = elim (subst (λ o. In i (places o)) e member) [ ]
    leave-left (some is) e =
        let (c, runs) = close_at-open in
        (
          c,
          ap
                (Option.map (λ (heap : List Chan). record {
                  subs = put_subs channel (without i is) cs.subs;
                  heap = heap;
                }))
                runs
              ∙ ap
                  (λ o. some (record {
                    subs = put_subs channel (without i (places o)) cs.subs;
                    heap = set cs.heap i (record c { closed = true });
                  }))
                  (sym e),
        )

    In-left :
        (c : Chan) (name : Bytes) (j : ℕ)
        → In j (subscribers name (left c))
        → In j (subscribers name cs) × (i ≢ j)
    unfolding left
    In-left c name j m =
        elim (In-ite channel name j _ _ (bytes_dec channel name)
          (subst (In j) (places-put_subs channel name _ cs.subs) m)) [
            | inl (p, q) ↦
                let (r, ne) = In-without j i (subscribers channel cs) q in
                (subst (λ n. In j (subscribers n cs)) p r, ne)
            | inr (p, q) ↦ (
              q,
              λ e. p (
                  valid.apart channel name j (subst (λ k. In k (subscribers channel cs)) e member)
                    q),
            )
          ]

    left-IsValid : (c : Chan) → IsValid (left c)
    unfolding left
    left-IsValid c = record {
      live = λ name j m.
          let (r, ne) = In-left c name j m in
          IsOpen-set_ne cs.heap i j (record c { closed = true }) ne (valid.live name j r);
      apart = λ a b j m n. valid.apart a b j (In-left c a j m).0 (In-left c b j n).0;
    }

  module _ (channel : Bytes) (payload : Option Bytes) where
    send_to-runs :
        (o : Option (List ℕ))
        → ((i : ℕ) → In i (places o) → IsOpen cs.heap i)
        → (heap : List Chan) × (n : ℕ) × (send_to payload o cs
            ≡ some (record cs { heap = heap }, n))
          × (n ≤ length (places o))
          × ((j : ℕ) → IsOpen cs.heap j → IsOpen heap j)
    unfolding send_to places
    send_to-runs none h = (cs.heap, 0, refl, omega arith, λ j p. p)
    send_to-runs (some is) h =
        let s = offer_all-Sends payload is cs.heap h in
        (
          s.heap,
          s.sent,
          ap (Option.map (λ (r : List Chan × ℕ). (record cs { heap = r.0 }, r.1))) s.runs,
          s.few,
          s.keeps,
        )

    kept-IsValid :
        (heap : List Chan)
        → ((j : ℕ) → IsOpen cs.heap j → IsOpen heap j)
        → IsValid (record cs { heap = heap })
    kept-IsValid heap h = record {
      live = λ name i m. h i (valid.live name i m);
      apart = valid.apart;
    }

IsReached-IsValid : (cs : Channels) → IsReached cs → IsValid cs
unfolding unsubscribe_channel broadcast places lookup subscribe_channel subscribed
IsReached-IsValid cs at_start = record {
  live = λ name i m. elim m [ ];
  apart = λ a b i m n. elim m [ ];
}
IsReached-IsValid cs (subscribes channel old r) =
    subscribed-IsValid old (IsReached-IsValid old r) channel
IsReached-IsValid cs (unsubscribes channel i old new r m e) =
    let valid = IsReached-IsValid old r in
    let (c, runs) = leave-left old valid channel i m (lookup channel old.subs) refl in
    subst IsValid (some-value _ _ (sym runs ∙ e)) (left-IsValid old valid channel i m c)
IsReached-IsValid cs (broadcasts channel payload old new n r e) =
    let valid = IsReached-IsValid old r in
    let (heap, k, runs, few, keeps) =
      send_to-runs old valid channel payload (lookup channel old.subs) (valid.live channel) in
    subst IsValid (ap (λ (p : Channels × ℕ). p.0) (some-value _ _ (sym runs ∙ e)))
      (kept-IsValid old valid channel payload heap keeps)

-- Wherever subscriptions, unsubscriptions of what is subscribed and broadcasts have led, a broadcast
-- does not send to a closed channel, which would panic, and counts no more deliveries than there are
-- subscribers.
pub broadcast-IsReached :
    (cs : Channels)
    → IsReached cs
    → (channel : Bytes) (payload : Option Bytes)
    → (cs' : Channels) × (n : ℕ) × (broadcast channel payload cs ≡ some (cs', n))
      × (n ≤ length (subscribers channel cs))
unfolding broadcast
broadcast-IsReached cs r channel payload =
    let valid = IsReached-IsValid cs r in
    let (heap, n, runs, few, keeps) =
      send_to-runs cs valid channel payload (lookup channel cs.subs) (valid.live channel) in
    (record cs { heap = heap }, n, runs, few)
