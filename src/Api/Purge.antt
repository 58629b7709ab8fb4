-- ===== src/Api/Purge.antt =====
-- internal/api/server.go: handleDLQPurge over all topics, and what handleDLQ then finds.
use mathlib.Core.Option
use vortexmq.Prelude.{
  ℕ, true, false, Option, none, some, List, [], ◌∷◌, Bytes, Map, bytes_dec, ite, if_neg, lookup,
  lookup-insert, if-true, if-false, Bool-cases, map, inl, inr, ◌⊎◌, ◌≡◌, ◌≢◌, refl, sym, ap, ◌∙◌,
}
use vortexmq.Text.{codes}
use vortexmq.Dlq
use vortexmq.Topic.{Topic}
use vortexmq.Broker.{Broker, put_topic, topics_list}
use vortexmq.Api.{
  Request, purged, entries, answers, is_blank, listed, list_all, reply_entries, handle_dlq,
  purge_topic, purge_all, reply_purged, handle_dlq_purge, is, cors_middleware,
}

-- A topic with an empty dead letter queue, and all else as it was.
abbrev pub without_letters : Topic → Topic
without_letters t = record t { dlq = record t.dlq { entries = []; order = [] } }

In : Bytes → List Bytes → Type 0
In name [] = ⊥
In name (n ∷ names) = (n ≡ name) ⊎ In name names

lookup-keys :
    {V : Type 0} (name : Bytes) (m : Map V)
    → ¬ In name (map (λ (e : Bytes × V). e.0) m)
    → lookup name m ≡ none
unfolding lookup In
lookup-keys name [] h = refl
lookup-keys name ((n, v) ∷ m) h =
    if_neg (bytes_dec n name) (λ e. h (inl e)) _ _ ∙ lookup-keys name m (λ i. h (inr i))

twice :
    (o : Option Topic)
    → Option.map without_letters (Option.map without_letters o) ≡ Option.map without_letters o
twice none = refl
twice (some t) = refl

listed-none : (limit : ℕ) (o : Option Topic) → listed limit (Option.map without_letters o) ≡ some []
unfolding listed Dlq.list
listed-none limit none = refl
listed-none limit (some t) = refl

not-In : (n name : Bytes) (names : List Bytes) → n ≢ name → ¬ In name names → ¬ In name (n ∷ names)
unfolding In
not-In n name names p h (inl i) = p i
not-In n name names p h (inr i) = h i

module _ {W : Type 0} where
  purge_topic-lookup :
      (n : Bytes) (o : Option Topic) (b : Broker W)
      → lookup n b.topics ≡ o
      → (name : Bytes)
      → lookup name (purge_topic n o b).0.topics
        ≡ ite (bytes_dec n name) (Option.map without_letters o) (lookup name b.topics)
  unfolding purge_topic put_topic Dlq.purge
  purge_topic-lookup n (some t) b e name = lookup-insert n name (without_letters t) b.topics
  purge_topic-lookup n none b e name =
      elim (bytes_dec n name) as (λ x. lookup name b.topics ≡ ite x none (lookup name b.topics)) [
        | yes p ↦ ap (λ k. lookup k b.topics) (sym p) ∙ e
        | no p ↦ refl
      ]

  -- A topic that has been purged, or one that is not among those to purge and is as it was.
  abbrev Purges : List Bytes → Broker W → Broker W → Bytes → Type 0
  Purges names b b' name =
      (lookup name b'.topics ≡ Option.map without_letters (lookup name b.topics))
      ⊎ ((¬ In name names) × (lookup name b'.topics ≡ lookup name b.topics))

  after_one :
      (n name : Bytes) (names : List Bytes) (b b1 b2 : Broker W) (x : Dec (n ≡ name))
      → lookup name b1.topics
        ≡ ite x (Option.map without_letters (lookup n b.topics)) (lookup name b.topics)
      → Purges names b1 b2 name
      → Purges (n ∷ names) b b2 name
  after_one n name names b b1 b2 (yes p) e (inl q) = inl (
      q
      ∙ ap (Option.map without_letters) e
      ∙ twice (lookup n b.topics)
      ∙ ap (λ k. Option.map without_letters (lookup k b.topics)) p)
  after_one n name names b b1 b2 (yes p) e (inr (h, q)) =
      inl (q ∙ e ∙ ap (λ k. Option.map without_letters (lookup k b.topics)) p)
  after_one n name names b b1 b2 (no p) e (inl q) = inl (q ∙ ap (Option.map without_letters) e)
  after_one n name names b b1 b2 (no p) e (inr (h, q)) = inr (not-In n name names p h, q ∙ e)

  purge_all-Purges :
      (names : List Bytes) (b : Broker W) (name : Bytes) → Purges names b (purge_all names b).0 name
  unfolding purge_all In
  purge_all-Purges [] b name = inr (λ i. i, refl)
  purge_all-Purges (n ∷ names) b name =
      after_one n name names b b1 (purge_all names b1).0 (bytes_dec n name)
        (purge_topic-lookup n (lookup n b.topics) b refl name) (purge_all-Purges names b1 name)
    where
      b1 : Broker W
      b1 = (purge_topic n (lookup n b.topics) b).0

  -- Every topic, in every place of the map, has an empty dead letter queue.
  purge_all-all :
      (b : Broker W) (name : Bytes)
      → lookup name (purge_all (topics_list b) b).0.topics
        ≡ Option.map without_letters (lookup name b.topics)
  unfolding topics_list
  purge_all-all b name = elim (purge_all-Purges (topics_list b) b name) [
    | inl q ↦ q
    | inr (h, q) ↦ q ∙ gone h ∙ ap (Option.map without_letters) (sym (gone h))
  ]
    where
      gone : ¬ In name (topics_list b) → lookup name b.topics ≡ none
      gone h = lookup-keys name b.topics h

  module _ (b b' : Broker W)
      (h : (name : Bytes)
        → lookup name b'.topics ≡ Option.map without_letters (lookup name b.topics)) where
    listed-purged : (limit : ℕ) (name : Bytes) → listed limit (lookup name b'.topics) ≡ some []
    listed-purged limit name = ap (listed limit) (h name) ∙ listed-none limit (lookup name b.topics)

    list_all-purged : (names : List Bytes) → list_all names b' ≡ some []
    unfolding list_all
    list_all-purged [] = refl
    list_all-purged (n ∷ names) =
        rw (listed-purged 50 n, list_all) (rw (list_all-purged names, list_all) refl)

    handle_dlq-purged : (r : Request) → handle_dlq r b' ≡ answers b' 200 (entries [])
    unfolding handle_dlq reply_entries
    handle_dlq-purged r = elim (Bool-cases (is_blank r.topic)) [
      | inl e ↦ if-true _ _ _ e ∙ ap (λ o. reply_entries o b') (list_all-purged (topics_list b'))
      | inr e ↦ if-false _ _ _ e ∙ ap (λ o. reply_entries o b') (listed-purged 100 r.topic)
    ]

  -- A purge of no named topic, by a request of any method but OPTIONS, which corsMiddleware answers,
  -- empties the dead letter queue of every topic and changes nothing else of any topic; then the next
  -- request for dead letters, of one topic or of all, if it comes before any other change, answers with
  -- none.
  pub handle_dlq_purge-handle_dlq :
      (r r' : Request) (b : Broker W)
      → is_blank r.topic ≡ true
      → is r.method (codes "OPTIONS") ≡ false
      → is r'.method (codes "OPTIONS") ≡ false
      → (b' : Broker W) × (n : ℕ) × (cors_middleware handle_dlq_purge r b
          ≡ answers b' 200 (purged n))
        × ((name : Bytes)
            → lookup name b'.topics ≡ Option.map without_letters (lookup name b.topics))
        × (cors_middleware handle_dlq r' b' ≡ answers b' 200 (entries []))
  unfolding handle_dlq_purge reply_purged cors_middleware
  handle_dlq_purge-handle_dlq r r' b e p q =
      let (b', n) = purge_all (topics_list b) b in
      (
        b',
        n,
        if-false _ _ _ p ∙ if-true _ _ _ e,
        purge_all-all b,
        if-false _ _ _ q ∙ handle_dlq-purged b b' (purge_all-all b) r',
      )
