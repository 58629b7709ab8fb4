-- ===== src/Broker.antt =====
-- internal/queue/broker.go: the broker, which joins topics and an optional log. A call is one step;
-- `none` is a panic of a topic's call, or a ring whose constructor does not end.
pub mod Publish
pub mod Front
pub mod Consume
pub mod Ack
pub mod Sweep
use mathlib.Core.Option
use vortexmq.Prelude.{
  ℕ, ◌+◌, Bool, true, false, Option, none, some, List, [], ◌∷◌, map, if◌then◌else◌, Bytes, Map,
  length, lookup, insert, add64, word, ◌%◌,
}
use vortexmq.Int.{ℤ, ◌+ℤ◌, wrap64}
use vortexmq.Channels
use vortexmq.Channels.{Channels, no_channels}
use vortexmq.Message.{Message, Entropy, new_message}
use vortexmq.Topic
use vortexmq.Topic.{Topic, Stats, Consumed, asleep, returned_none, returned_some, panicked}

-- `BrokerWAL`; a Boolean is false for an error.
pub record BrokerWal (W : Type 0) : Type 0 where
  pub write_publish : Message → W → W × Bool
  pub write_ack : Bytes → Bytes → Bytes → W → W × Bool
  pub close : W → W × Bool

-- `Broker`, but for the ticker, the start time, and `totalDLQ`, which nothing uses. `sequence` is the counter
-- of message.go, which is global there.
pub record Broker (W : Type 0) : Type 0 where
  pub topics : Map Topic
  pub wal : Option W
  pub closed : Bool
  pub sequence : ℕ
  pub total_published : ℕ
  pub total_consumed : ℕ
  pub total_acked : ℕ
  pub total_nacked : ℕ
  pub channels : Channels

-- How `Consume` and `ConsumeGroup` end.
pub data Taken (W : Type 0) : Type 0 where
  sleeping : Broker W → Taken W
  returned : Broker W → Option Message → Taken W
  stopped : Taken W

module _ {W : Type 0} where
  -- `NewBroker`, without its clock and its ticker
  unfoldable pub new : Option W → ℕ → Broker W
  new wal sequence = record {
    topics = [];
    wal = wal;
    closed = false;
    sequence = sequence;
    total_published = 0;
    total_consumed = 0;
    total_acked = 0;
    total_nacked = 0;
    channels = no_channels;
  }

  -- The topic that a pointer into the map designates, after a call on it.
  unfoldable pub put_topic : Bytes → Topic → Broker W → Broker W
  put_topic name t b = record b { topics = insert name t b.topics }

  -- `GetTopic` and `GetOrCreateTopic`
  unfoldable pub get_topic : Bytes → Broker W → Option Topic
  get_topic name b = lookup name b.topics

  unfoldable pub get_or_create_topic : Bytes → Broker W → Option (Broker W × Topic)
  get_or_create_topic name b = elim (lookup name b.topics) [
    | some t ↦ some (b, t)
    | none ↦ Option.map (λ t. (put_topic name t b, t)) (Topic.new name 131072)
  ]

  -- The first two lines of `Publish`, `PublishFront` and `PublishDelayed`.
  unfoldable pub created :
      Bytes → Option Bytes → Entropy → Broker W → Option (Broker W × Topic × Message)
  created name payload e b =
      Option.map
        (λ r. (
          record r.0 { sequence = (new_message name payload e r.0.sequence).1 },
          r.1,
          (new_message name payload e r.0.sequence).0,
        ))
        (get_or_create_topic name b)

  unfoldable pub count_published : ℕ → Broker W → Broker W
  count_published n b = record b { total_published = add64 b.total_published n }

  -- What follows the topic's answer; without a message the caller gets an error.
  unfoldable pub answered : Bytes → Message → Topic × Bool → Broker W → Broker W × Option Message
  answered name m (t, true) b = (count_published 1 (put_topic name t b), some m)
  answered name m (t, false) b = (put_topic name t b, none)

  module _ (io : BrokerWal W) where
    -- `if b.wal != nil { … b.wal.WritePublish(msg) … }`
    unfoldable pub write_wal : Message → Broker W → Broker W × Bool
    write_wal m b = elim b.wal [
      | none ↦ (b, true)
      | some w ↦ (record b { wal = some (io.write_publish m w).0 }, (io.write_publish m w).1)
    ]

    -- The rest of a publication: the log first, then the topic.
    unfoldable pub submit :
        (Message → Topic → Topic × Bool)
        → Bytes
        → Broker W × Topic × Message
        → Broker W × Option Message
    submit enqueue name (b, t, m) =
        let (b', ok) = write_wal m b in if ok then answered name m (enqueue m t) b' else (b', none)

    -- `Publish` and `PublishFront`
    unfoldable pub publish :
        Bytes → Option Bytes → Entropy → Broker W → Option (Broker W × Option Message)
    publish name payload e b = Option.map (submit Topic.publish name) (created name payload e b)

    unfoldable pub publish_front :
        Bytes → Option Bytes → Entropy → Broker W → Option (Broker W × Option Message)
    publish_front name payload e b =
        Option.map (submit Topic.publish_front name) (created name payload e b)

    -- `PublishDelayed`: the message it returns is the one that the topic has stamped.
    unfoldable pub stamped : ℤ → ℤ → Message → Message
    stamped delay now m = record m { deliver_at = wrap64 (now +ℤ delay) }

    unfoldable pub publish_delayed :
        Bytes → Option Bytes → ℤ → Entropy → ℤ → Broker W → Option (Broker W × Option Message)
    publish_delayed name payload delay e now b =
        Option.map
          (λ r.
            let (b', m) = submit (λ m t. (Topic.publish_delayed m delay now t, true)) name r in
            (b', Option.map (stamped delay now) m))
          (created name payload e b)

    -- The loop of `PublishBatch`: an error of the log is dropped.
    unfoldable pub batch_loop :
        Bytes → List (Option Bytes × Entropy) → Broker W → Topic → Broker W × Topic × ℕ
    batch_loop name [] b t = (b, t, 0)
    batch_loop name ((payload, e) ∷ rest) b t =
        let (m, sequence) = new_message name payload e b.sequence in
        let (t', ok) = Topic.publish m t in
        let (b'', t'', n) =
          batch_loop name rest (write_wal m (record b { sequence = sequence })).0 t' in
        (b'', t'', (if ok then 1 else 0) + n)

    -- `PublishBatch`
    unfoldable pub publish_batch :
        Bytes → List (Option Bytes × Entropy) → Broker W → Option (Broker W × ℕ)
    publish_batch name [] b = some (b, 0)
    publish_batch name (p ∷ ps) b =
        Option.map
          (λ r.
            let (b', t, n) = batch_loop name (p ∷ ps) r.0 r.1 in
            (count_published (n % word) (put_topic name t b'), n))
          (get_or_create_topic name b)

    -- `Ack`: an error of the log is dropped.
    unfoldable pub write_ack : Bytes → Bytes → Bytes → Broker W → Broker W
    write_ack name group id b = elim b.wal [
      | none ↦ b
      | some w ↦ record b { wal = some (io.write_ack name group id w).0 }
    ]

    unfoldable pub acked : Bytes → Bytes → Bytes → Topic × Bool → Broker W → Broker W × Bool
    acked name group id (t, true) b = (
      write_ack name group id
          (let b' = put_topic name t b in record b' { total_acked = add64 b'.total_acked 1 }),
      true,
    )
    acked name group id (t, false) b = (put_topic name t b, false)

    unfoldable pub ack : Bytes → Bytes → Bytes → Broker W → Broker W × Bool
    ack name group id b = elim (lookup name b.topics) [
      | none ↦ (b, false)
      | some t ↦ acked name group id (Topic.ack group id t) b
    ]

    -- `Close`; the Boolean is false for an error of the log.
    unfoldable pub close_wal : Broker W → Broker W × Bool
    close_wal b = elim b.wal [
      | none ↦ (b, true)
      | some w ↦ (record b { wal = some (io.close w).0 }, (io.close w).1)
    ]

    unfoldable pub close : Broker W → Broker W × Bool
    close b =
        if b.closed
        then (b, true)
        else close_wal
            (record b { closed = true; topics = map (λ e. (e.0, Topic.close e.1)) b.topics })

  -- `Consume` and `ConsumeGroup`: `later` is the broker when the topic's call returns, as
  -- the other goroutines have left it if the call has slept.
  unfoldable pub taken : Bytes → Broker W → Consumed → Taken W
  taken name b (asleep t) = sleeping (put_topic name t b)
  taken name b (returned_none t) = returned (put_topic name t b) none
  taken name b (returned_some t m) =
      let b' = put_topic name t b in
      returned (record b' { total_consumed = add64 b'.total_consumed 1 }) (some m)
  taken name b panicked = stopped

  unfoldable pub consume : Bytes → ℤ → Broker W → List (ℤ × Topic) → Broker W → Taken W
  consume name timeout b wakes later = elim (lookup name b.topics) [
    | none ↦ returned b none
    | some t ↦ taken name later (Topic.consume_wait timeout t wakes)
  ]

  unfoldable pub consume_group :
      Bytes → Bytes → Bytes → ℤ → ℤ → Broker W → List (ℤ × Topic) → Broker W → Option (Taken W)
  consume_group name group consumer timeout now b wakes later =
      Option.map (λ r. taken name later (Topic.consume_group group consumer timeout now r.1 wakes))
        (get_or_create_topic name b)

  -- `Nack`
  unfoldable pub nacked : Bytes → Topic × Bool → Broker W → Broker W × Bool
  nacked name (t, true) b =
      let b' = put_topic name t b in (record b' { total_nacked = add64 b'.total_nacked 1 }, true)
  nacked name (t, false) b = (put_topic name t b, false)

  unfoldable pub nack : Bytes → Bytes → Bytes → Bytes → ℤ → Broker W → Option (Broker W × Bool)
  nack name group id reason failed_at b = elim (lookup name b.topics) [
    | none ↦ some (b, false)
    | some t ↦ Option.map (λ r. nacked name r b) (Topic.nack group id reason failed_at t)
  ]

  -- `ReplayDLQ`
  unfoldable pub replay_dlq : Bytes → Bytes → ℤ → Broker W → Broker W × Option Message
  replay_dlq name id now b = elim (lookup name b.topics) [
    | none ↦ (b, none)
    | some t ↦ let (t', m) = Topic.replay_dead_letter id now t in (put_topic name t' b, m)
  ]

  -- `sweepAllTimeouts`: the time at which each group of each topic is swept, and that of the dead letters
  unfoldable pub sweep_all_timeouts : (Bytes → Bytes → ℤ) → ℤ → Broker W → Broker W
  sweep_all_timeouts now failed_at b = record b {
    topics = map (λ e. (e.0, (Topic.sweep_consumer_timeouts (now e.0) failed_at e.1).0)) b.topics;
  }

  -- `TopicsList`
  unfoldable pub topics_list : Broker W → List Bytes
  topics_list b = map (λ e. e.0) b.topics

  -- `Broadcast`
  unfoldable pub broadcast : Bytes → Option Bytes → Broker W → Option (Broker W × ℕ)
  broadcast channel payload b =
      Option.map (λ r. (record b { channels = r.0 }, r.1))
        (Channels.broadcast channel payload b.channels)

-- The loop of `Stats` over the topics: their statistics, and the messages in dead letter queues.
unfoldable pub collect : Map Topic → List Stats × ℕ
collect [] = ([], 0)
collect ((name, t) ∷ m) =
    let (rest, total) = collect m in
    (Topic.stats t ∷ rest, add64 (Topic.stats t).dead_lettered total)

-- `BrokerStats`, but for `AllocatedMemory`, which is never set.
pub record BrokerStats : Type 0 where
  pub uptime_seconds : ℤ
  pub total_topics : ℕ
  pub total_published : ℕ
  pub total_consumed : ℕ
  pub total_acked : ℕ
  pub total_nacked : ℕ
  pub total_dlq : ℕ
  pub topics : List Stats

-- `Stats`, after so many seconds
unfoldable pub stats : {W : Type 0} → ℤ → Broker W → BrokerStats
stats uptime b = record {
  uptime_seconds = uptime;
  total_topics = length b.topics;
  total_published = b.total_published;
  total_consumed = b.total_consumed;
  total_acked = b.total_acked;
  total_nacked = b.total_nacked;
  total_dlq = (collect b.topics).1;
  topics = (collect b.topics).0;
}
