-- ===== src/Api.antt =====
-- internal/api/server.go: the handlers of the HTTP server. The router and the JSON package are Go's: a
-- request names its handler, a body to decode is decoded by a parameter, and a response has the value
-- that is encoded.
pub mod Purge
use vortexmq.Prelude.{
  ℕ, ◌+◌, Bool, true, false, ◌||◌, ◌&&◌, Option, none, some, List, [], ◌∷◌, ◌++◌, ite,
  if◌then◌else◌, bytes_dec, ◌==◌, length, Bytes, lookup,
}
use vortexmq.Int.{ℤ, pos, ◌*ℤ◌, wrap64, ltb_ℤ}
use vortexmq.Text.{codes, atoi}
use vortexmq.Message.{Message, Entropy}
use vortexmq.Dlq
use vortexmq.Topic
use vortexmq.Topic.{Topic}
use vortexmq.Broker
use vortexmq.Broker.{
  Broker, BrokerWal, BrokerStats, Taken, sleeping, returned, stopped, put_topic, topics_list,
}

-- The field `payload` of a request, where it is not null: a string, or another value of JSON.
pub data Payload (J : Type 0) : Type 0 where
  text : Bytes → Payload J
  other : J → Payload J

-- What json.Unmarshal leaves of a publish request, and whether it gives no error.
pub record PublishRequest (J : Type 0) : Type 0 where
  pub fine : Bool
  pub payload : Option (Payload J)
  pub delay_ms : ℤ

pub record Json (J : Type 0) : Type 0 where
  pub publish_request : Bytes → PublishRequest J
  pub marshal : J → Bytes
  pub replay_request : Bytes → Option (Bytes × Bytes)

-- What a handler looks at of its request. A body is `none` where it cannot be read.
pub record Request : Type 0 where
  pub method : Bytes
  pub path : Bytes
  pub topic : Bytes
  pub timeout_ms : Bytes
  pub body : Option Bytes

-- The value that a response encodes.
pub data Content : Type 0 where
  nothing : Content
  message_text : Bytes → Content
  broker_stats : BrokerStats → Content
  topic_names : List Bytes → ℕ → Content
  published : Bytes → Bytes → Content
  message : Message → Content
  entries : List Dlq.Entry → Content
  replayed : Bytes → Bytes → Content
  purged : ℕ → Content

-- How a handler ends: with a status and a value, asleep in the broker, or with a panic.
pub data Outcome (W : Type 0) : Type 0 where
  answers : Broker W → ℕ → Content → Outcome W
  asleep : Broker W → Outcome W
  panics : Outcome W

-- `strings.TrimPrefix` and `strings.Split` at '/'.
unfoldable pub trim_prefix : Bytes → Bytes → Option Bytes
trim_prefix [] bs = some bs
trim_prefix (p ∷ ps) [] = none
trim_prefix (p ∷ ps) (c ∷ bs) = let rest = trim_prefix ps bs in if p == c then rest else none

unfoldable pub cons_part : ℕ → List Bytes → List Bytes
cons_part c [] = (c ∷ []) ∷ []
cons_part c (p ∷ ps) = (c ∷ p) ∷ ps

unfoldable pub split_path : Bytes → List Bytes
split_path [] = [] ∷ []
split_path (c ∷ bs) = let rest = split_path bs in if c == b'/' then [] ∷ rest else cons_part c rest

unfoldable pub path_parts : Bytes → List Bytes
path_parts path = elim (trim_prefix (codes "/api/v1/topics/") path) [
  | none ↦ split_path path
  | some rest ↦ split_path rest
]

unfoldable pub is : Bytes → Bytes → Bool
is a b = ite (bytes_dec a b) true false

unfoldable pub is_blank : Bytes → Bool
is_blank [] = true
is_blank (c ∷ bs) = false

-- The payload of a publish request: the body itself where it is no request with a payload.
unfoldable pub payload_bytes : {J : Type 0} → Json J → Bytes → PublishRequest J → Bytes
payload_bytes json body req = elim req.payload [
  | none ↦ body
  | some (text p) ↦ if req.fine then p else body
  | some (other v) ↦ if req.fine then json.marshal v else body
]

-- `t.DLQ().List(0, limit)` of a topic that is looked up; `none` for a panic.
unfoldable pub listed : ℕ → Option Topic → Option (List Dlq.Entry)
listed limit none = some []
listed limit (some t) = Dlq.list 0 limit t.dlq

module _ {W : Type 0} where
  unfoldable pub refuse : ℕ → Bytes → Broker W → Outcome W
  refuse status msg b = answers b status (message_text msg)

  -- `handleStats` and `handleTopics`
  unfoldable pub handle_stats : ℤ → Broker W → Outcome W
  handle_stats uptime b = answers b 200 (broker_stats (Broker.stats uptime b))

  unfoldable pub handle_topics : Broker W → Outcome W
  handle_topics b = answers b 200 (topic_names (topics_list b) (length (topics_list b)))

  -- What follows the broker's answer to a publication; `failure` is the text of its error.
  unfoldable pub reply_published : Bytes → Bytes → Option (Broker W × Option Message) → Outcome W
  reply_published name failure none = panics
  reply_published name failure (some (b, none)) =
      refuse 500 (codes "{\"error\":\"" ++ (failure ++ codes "\"}")) b
  reply_published name failure (some (b, some m)) = answers b 200 (published m.id name)

  unfoldable pub reply_consumed : Taken W → Outcome W
  reply_consumed (sleeping b) = asleep b
  reply_consumed (returned b none) = answers b 204 nothing
  reply_consumed (returned b (some m)) = answers b 200 (message m)
  reply_consumed stopped = panics

  module _ {J : Type 0} (io : BrokerWal W) (json : Json J) (e : Entropy) (now : ℤ) (failure : Bytes)
      (wakes : List (ℤ × Topic)) (others : Broker W → Broker W) where
    unfoldable pub publish_request : Bytes → Bytes → PublishRequest J → Broker W → Outcome W
    publish_request name body req b =
        if ltb_ℤ (pos 0) req.delay_ms
        then reply_published name failure (
            Broker.publish_delayed io name (some (payload_bytes json body req))
              (wrap64 (req.delay_ms *ℤ pos 1000000)) e now b)
        else reply_published name failure
            (Broker.publish io name (some (payload_bytes json body req)) e b)

    unfoldable pub publish_body : Bytes → Option Bytes → Broker W → Outcome W
    publish_body name none b = refuse 400 (codes "{\"error\":\"failed to read request body\"}") b
    publish_body name (some body) b = publish_request name body (json.publish_request body) b

    unfoldable pub consume_for : Bytes → Bytes → Broker W → Outcome W
    consume_for name timeout_ms b =
        reply_consumed
          (Broker.consume name (wrap64 ((atoi timeout_ms).0 *ℤ pos 1000000)) b wakes (others b))

    -- The switch of `handleTopicAction`
    unfoldable pub topic_action : Bytes → Bytes → Request → Broker W → Outcome W
    topic_action name action r b =
        if is action (codes "publish") && is r.method (codes "POST")
        then publish_body name r.body b
        else if is action (codes "consume") && is r.method (codes "GET")
        then consume_for name r.timeout_ms b
        else refuse 404 (codes "{\"error\":\"unsupported topic action\"}") b

    unfoldable pub missing_name : Broker W → Outcome W
    missing_name b = refuse 400 (codes "{\"error\":\"missing topic name\"}") b

    unfoldable pub with_parts : List Bytes → Request → Broker W → Outcome W
    with_parts [] r b = missing_name b
    with_parts (name ∷ []) r b = if is_blank name then missing_name b else topic_action name [] r b
    with_parts (name ∷ action ∷ parts) r b =
        if is_blank name then missing_name b else topic_action name action r b

    -- `handleTopicAction`
    unfoldable pub handle_topic_action : Request → Broker W → Outcome W
    handle_topic_action r b = with_parts (path_parts r.path) r b

    unfoldable pub reply_replayed : Bytes → Broker W × Option Message → Outcome W
    reply_replayed name (b, some m) = answers b 200 (replayed m.id name)
    reply_replayed name (b, none) = refuse 404 (codes "{\"error\":\"failed to replay message\"}") b

    unfoldable pub replay_decoded : Option (Bytes × Bytes) → Broker W → Outcome W
    replay_decoded none b = refuse 400 (codes "{\"error\":\"topic and id required\"}") b
    replay_decoded (some (name, id)) b =
        if is_blank name || is_blank id
        then refuse 400 (codes "{\"error\":\"topic and id required\"}") b
        else reply_replayed name (Broker.replay_dlq name id now b)

    unfoldable pub replay_body : Option Bytes → Broker W → Outcome W
    replay_body none b = refuse 400 (codes "{\"error\":\"topic and id required\"}") b
    replay_body (some body) b = replay_decoded (json.replay_request body) b

    -- `handleDLQReplay`
    unfoldable pub handle_dlq_replay : Request → Broker W → Outcome W
    handle_dlq_replay r b =
        if is r.method (codes "POST")
        then replay_body r.body b
        else refuse 405 (codes "{\"error\":\"method not allowed\"}") b

  -- The loop over all topics.
  unfoldable pub list_all : List Bytes → Broker W → Option (List Dlq.Entry)
  list_all [] b = some []
  list_all (name ∷ names) b = elim (listed 50 (lookup name b.topics)) [
    | none ↦ none
    | some es ↦ elim (list_all names b) [ none ↦ none | some rest ↦ some (es ++ rest) ]
  ]

  unfoldable pub reply_entries : Option (List Dlq.Entry) → Broker W → Outcome W
  reply_entries none b = panics
  reply_entries (some es) b = answers b 200 (entries es)

  -- `handleDLQ`
  unfoldable pub handle_dlq : Request → Broker W → Outcome W
  handle_dlq r b =
      if is_blank r.topic
      then reply_entries (list_all (topics_list b) b) b
      else reply_entries (listed 100 (lookup r.topic b.topics)) b

  -- `t.DLQ().Purge()` of a topic that is looked up.
  unfoldable pub purge_topic : Bytes → Option Topic → Broker W → Broker W × ℕ
  purge_topic name none b = (b, 0)
  purge_topic name (some t) b =
      let (q, n) = Dlq.purge t.dlq in (put_topic name (record t { dlq = q }) b, n)

  unfoldable pub purge_all : List Bytes → Broker W → Broker W × ℕ
  purge_all [] b = (b, 0)
  purge_all (name ∷ names) b =
      let (b', n) = purge_topic name (lookup name b.topics) b in
      let (b'', k) = purge_all names b' in (b'', n + k)

  unfoldable pub reply_purged : Broker W × ℕ → Outcome W
  reply_purged (b, n) = answers b 200 (purged n)

  -- `handleDLQPurge`
  unfoldable pub handle_dlq_purge : Request → Broker W → Outcome W
  handle_dlq_purge r b =
      if is_blank r.topic
      then reply_purged (purge_all (topics_list b) b)
      else reply_purged (purge_topic r.topic (lookup r.topic b.topics) b)

  -- `corsMiddleware`, around a handler
  unfoldable pub cors_middleware : (Request → Broker W → Outcome W) → Request → Broker W → Outcome W
  cors_middleware handler r b =
      if is r.method (codes "OPTIONS") then answers b 200 nothing else handler r b
