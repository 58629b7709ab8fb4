-- ===== src/Message.antt =====
-- internal/queue/message.go: a message, its constructor and its copy. Pointers to messages are values
-- here: a message object is held by one container at a time (a ring, a wheel, a pending list), and the
-- dead letter queue keeps a clone. An int64 or an int is a ℤ that wraps at 64 bits.
use vortexmq.Prelude.{
  ℕ, ◌+◌, ◌/◌, ◌%◌, Option, none, some, [], ◌∷◌, ◌++◌, Bytes, Map, insert, length, add64,
}
use vortexmq.Int.{ℤ, pos, negsuc, sub_ℕ}
use vortexmq.Text.{decimal, decimal_ℤ, hex}

-- `Message`. A nil payload is `none`.
pub record Message : Type 0 where
  pub id : Bytes
  pub topic : Bytes
  pub payload : Option Bytes
  pub headers : Map Bytes
  pub priority : ℕ
  pub timestamp : ℤ
  pub deliver_at : ℤ
  pub retry_count : ℤ
  pub max_retries : ℤ
  pub consumer_id : Bytes
  pub ack_deadline : ℤ
  pub failure_cause : Bytes

-- `len(msg.Payload)`
unfoldable pub payload_len : Option Bytes → ℕ
payload_len none = 0
payload_len (some b) = length b

-- Go's integer division by a positive number rounds towards zero.
div_ℤ : ℤ → ℕ → ℤ
div_ℤ (pos n) d = pos (n / d)
div_ℤ (negsuc n) d = sub_ℕ 0 ((n + 1) / d)

-- What `NewMessage` takes from outside: the time in nanoseconds and the two random bytes.
pub record Entropy : Type 0 where
  pub now : ℤ
  pub random : Bytes

-- `fmt.Sprintf("%d-%d-%s", …)`
unfoldable pub message_id : Entropy → ℕ → Bytes
unfolding div_ℤ
message_id e seq =
    decimal_ℤ (div_ℤ e.now 1000000) ++ b'-' ∷ (decimal (seq % 100000) ++ b'-' ∷ hex e.random)

-- `NewMessage`: the message, and the global sequence number after it.
unfoldable pub new_message : Bytes → Option Bytes → Entropy → ℕ → Message × ℕ
new_message topic payload e seq = (
  record {
    id = message_id e (add64 seq 1);
    topic = topic;
    payload = payload;
    headers = [];
    priority = 0;
    timestamp = e.now;
    deliver_at = e.now;
    retry_count = pos 0;
    max_retries = pos 3;
    consumer_id = [];
    ack_deadline = pos 0;
    failure_cause = [];
  },
  add64 seq 1,
)

-- `for k, v := range m.Headers { headersCopy[k] = v }`
pub copy_headers : Map Bytes → Map Bytes → Map Bytes
copy_headers [] copy = copy
copy_headers ((k, v) ∷ m) copy = copy_headers m (insert k v copy)

-- `Clone`
unfoldable pub clone : Message → Message
unfolding copy_headers
clone m = record {
  id = m.id;
  topic = m.topic;
  payload = m.payload;
  headers = copy_headers m.headers [];
  priority = m.priority;
  timestamp = m.timestamp;
  deliver_at = m.deliver_at;
  retry_count = m.retry_count;
  max_retries = m.max_retries;
  consumer_id = m.consumer_id;
  ack_deadline = m.ack_deadline;
  failure_cause = m.failure_cause;
}
