-- ===== src/Group.antt =====
-- internal/queue/consumer_group.go: a consumer group and its pending entries list. The callbacks that
-- Topic.GetOrCreateGroup passes are the actions that an operation returns, in the order of the calls.
-- Times and durations are int64 nanoseconds; the time is an argument.
pub mod Backoff
pub mod Pending
use mathlib.Core.Option
use vortexmq.Prelude.{
  ℕ, zero, suc, ◌+◌, ◌*◌, ◌%◌, ◌^◌, Bool, true, false, Option, none, some, List, [], ◌∷◌, ◌++◌, map,
  ltb, ◌&&◌, if◌then◌else◌, length, Bytes, Map, lookup, insert, delete, word,
}
use vortexmq.Int.{ℤ, pos, negsuc, ◌+ℤ◌, ◌-ℤ◌, leb_ℤ, ltb_ℤ, of_word, wrap64}
use vortexmq.Text.{codes}
use vortexmq.Message.{Message, clone}

-- `PendingMessage`
pub record PendingMessage : Type 0 where
  pub message : Message
  pub consumer_id : Bytes
  pub delivery_time : ℤ
  pub ack_deadline : ℤ

-- `ConsumerGroup`
pub record Group : Type 0 where
  pub name : Bytes
  pub topic_name : Bytes
  pub pel : Map PendingMessage
  pub consumers : Map ℤ
  pub default_timeout : ℤ

-- A call of `onRetry` or of `onDeadLetter`.
pub data Action : Type 0 where
  retry : Message → ℤ → Action
  dead_letter : Message → Bytes → Action

-- `NewConsumerGroup`
unfoldable pub new : Bytes → Bytes → ℤ → Group
new name topic_name timeout = record {
  name = name;
  topic_name = topic_name;
  pel = [];
  consumers = [];
  default_timeout = if leb_ℤ timeout (pos 0) then pos 30000000000 else timeout;
}

-- `Checkout`: the group, and the message as the consumer gets it.
unfoldable pub checkout : Message → Bytes → ℤ → ℤ → Group → Group × Message
checkout msg consumer custom now g =
    let timeout = if ltb_ℤ (pos 0) custom then custom else g.default_timeout in
    let msg' = record msg { consumer_id = consumer; ack_deadline = wrap64 (now +ℤ timeout) } in
    (
      record g {
        consumers = insert consumer now g.consumers;
        pel =
            insert msg.id
              (record {
                message = msg';
                consumer_id = consumer;
                delivery_time = now;
                ack_deadline = msg'.ack_deadline;
              })
              g.pel;
      },
      msg',
    )

-- `Ack`
unfoldable pub ack : Bytes → Group → Group × Bool
ack id g = elim (lookup id g.pel) [
  | none ↦ (g, false)
  | some _ ↦ (record g { pel = delete id g.pel }, true)
]

-- `msg.RetryCount++` and the reason
unfoldable pub failed : Message → Bytes → Message
failed m reason = record m { retry_count = wrap64 (m.retry_count +ℤ pos 1); failure_cause = reason }

-- `msg.RetryCount >= msg.MaxRetries`
abbrev pub is_exhausted : Message → Bool
is_exhausted m = leb_ℤ m.max_retries m.retry_count

-- `time.Duration(100*(1<<n)) * time.Millisecond`: int64 throughout, and a shift by 64 or more is 0.
unfoldable pub backoff_raw : ℕ → ℤ
backoff_raw n = of_word (100 * (if ltb n 64 then 2 ^ n else 0) * 1000000 % word)

-- 10 * time.Second
abbrev pub max_backoff : ℤ
max_backoff = pos 10000000000

unfoldable pub clipped : ℤ → ℤ
clipped d = if ltb_ℤ max_backoff d then max_backoff else d

-- The backoff of a retry; `none` is the panic of a shift by a negative number.
unfoldable pub backoff_at : ℤ → Option ℤ
backoff_at (pos n) = some (clipped (backoff_raw n))
backoff_at (negsuc n) = none

unfoldable pub backoff : ℤ → Option ℤ
backoff retry_count = backoff_at (wrap64 (retry_count -ℤ pos 1))

-- What becomes of a message that has failed.
unfoldable pub settle : Message → Bytes → Option Action
settle m reason =
    if is_exhausted m
    then some (dead_letter m reason)
    else Option.map (retry m) (backoff m.retry_count)

-- `Nack`
unfoldable pub nack : Bytes → Bytes → Group → Option (Group × Bool × List Action)
nack id reason g = elim (lookup id g.pel) [
  | none ↦ some (g, false, [])
  | some p ↦
      Option.map (λ a. (record g { pel = delete id g.pel }, true, a ∷ []))
        (settle (failed p.message reason) reason)
]

abbrev pub is_expired : ℤ → PendingMessage → Bool
is_expired now p = leb_ℤ p.ack_deadline now

-- The loop of `SweepTimeouts` over the pending list: the messages whose deadline has passed, and the
-- entries that stay.
unfoldable pub sweep_loop : ℤ → Map PendingMessage → List Message × Map PendingMessage
sweep_loop now [] = ([], [])
sweep_loop now ((id, p) ∷ m) =
    let (out, kept) = sweep_loop now m in
    if is_expired now p then (p.message ∷ out, kept) else (out, (id, p) ∷ kept)

abbrev pub timeout_cause : Bytes
timeout_cause = codes "Ack deadline expired (worker timeout/crash)"

unfoldable pub time_out : Message → Action
time_out m =
    let m' = failed m timeout_cause in
    if is_exhausted m' then dead_letter m' timeout_cause else retry m' (pos 500000000)

-- `SweepTimeouts`
unfoldable pub sweep_timeouts : ℤ → Group → Group × ℕ × List Action
sweep_timeouts now g =
    let (out, kept) = sweep_loop now g.pel in
    (record g { pel = kept }, length out, map time_out out)

-- `PendingCount` and `ActiveConsumers`
unfoldable pub pending_count : Group → ℕ
pending_count g = length g.pel

unfoldable pub active_consumers : Group → ℕ
active_consumers g = length g.consumers

-- `ListPending`
unfoldable pub list_loop : ℤ → Map PendingMessage → List PendingMessage → List PendingMessage
list_loop limit [] result = result
list_loop limit ((id, p) ∷ m) result =
    let result' = result ++ (record p { message = clone p.message } ∷ []) in
    let rest = list_loop limit m result' in
    if ltb_ℤ (pos 0) limit && leb_ℤ limit (pos (length result')) then result' else rest

unfoldable pub list_pending : ℤ → Group → List PendingMessage
list_pending limit g = list_loop limit g.pel []
