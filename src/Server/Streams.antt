-- ===== src/Server/Streams.antt =====
-- internal/network/server.go: the commands on streams and consumer groups.
use mathlib.Core.Option
use vortexmq.Prelude.{
  ℕ, ◌+◌, Bool, true, false, ◌||◌, Option, none, some, List, [], ◌∷◌, ite, if◌then◌else◌, bytes_dec,
  Bytes, Map, insert,
}
use vortexmq.Int.{ℤ, pos, ◌*ℤ◌, wrap64}
use vortexmq.Text.{codes, atoi}
use vortexmq.Message.{Message}
use vortexmq.Topic
use vortexmq.Topic.{Topic}
use vortexmq.Broker
use vortexmq.Broker.{Broker, Taken, sleeping, returned, stopped, put_topic, get_or_create_topic}
use vortexmq.Resp.{
  Unicode, bytes_of, to_upper, ok, null_bulk, write_error, write_integer, write_bulk_string,
  write_array,
}
use vortexmq.Server.{Session, Env, Parts, Done, next, skip, asleep, crashed, write, with_broker}

-- The words of XREADGROUP's arguments.
pub data Key : Type 0 where
  group_key block_key streams_key other_key : Key

unfoldable pub key_of : Unicode → Option Bytes → Key
key_of uni arg =
    let word = to_upper uni (bytes_of arg) in
    ite (bytes_dec word (codes "GROUP")) group_key (
      ite (bytes_dec word (codes "BLOCK")) block_key
        (ite (bytes_dec word (codes "STREAMS")) streams_key other_key))

-- What the loop over XREADGROUP's arguments finds.
pub record Found : Type 0 where
  pub group : Bytes
  pub consumer : Bytes
  pub topic : Bytes
  pub block_ms : ℤ

abbrev pub nothing_found : Found
nothing_found = record { group = []; consumer = []; topic = []; block_ms = pos 0 }

-- With two arguments left, from the word on: GROUP wants three.
unfoldable pub find_last : Key → Option Bytes → Found → Found
find_last group_key b f = f
find_last block_key b f = record f { block_ms = (atoi (bytes_of b)).0 }
find_last streams_key b f = record f { topic = bytes_of b }
find_last other_key b f = f

unfoldable pub find : Unicode → List (Option Bytes) → Found → Found
find uni [] f = f
find uni (a ∷ []) f = f
find uni (a ∷ b ∷ []) f = find_last (key_of uni a) b f
find uni (a ∷ b ∷ c ∷ rest) f = elim (key_of uni a) [
  | group_key ↦ find uni rest (record f { group = bytes_of b; consumer = bytes_of c })
  | block_key ↦ find uni (c ∷ rest) (record f { block_ms = (atoi (bytes_of b)).0 })
  | streams_key ↦ record f { topic = bytes_of b }
  | other_key ↦ find uni (b ∷ c ∷ rest) f
]

-- The field values of XADD, as a map.
unfoldable pub payload_map : List (Option Bytes) → Map Bytes → Map Bytes
payload_map [] m = m
payload_map (k ∷ []) m = m
payload_map (k ∷ v ∷ rest) m = payload_map rest (insert (bytes_of k) (bytes_of v) m)

unfoldable pub is_empty_text : Bytes → Bool
is_empty_text [] = true
is_empty_text (c ∷ bs) = false

module _ {W : Type 0} where
  -- The answer of XADD and VMQ.PUBLISH: the message's ID, or the error.
  unfoldable pub reply_id : Env W → Option (Broker W × Option Message) → Session W → Done W
  reply_id env none s = crashed
  reply_id env (some (b, none)) s = next (write (write_error env.error_text) (with_broker b s))
  reply_id env (some (b, some m)) s = next (write (write_bulk_string (some m.id)) (with_broker b s))

  -- The answer of XREADGROUP.
  unfoldable pub reply_message : Option (Taken W) → Session W → Done W
  reply_message none s = crashed
  reply_message (some (sleeping b)) s = asleep (with_broker b s)
  reply_message (some (returned b none)) s = next (write null_bulk (with_broker b s))
  reply_message (some (returned b (some m))) s =
      next (write (write_array (some m.id ∷ m.payload ∷ [])) (with_broker b s))
  reply_message (some stopped) s = crashed

  -- `t := s.broker.GetOrCreateTopic(topicName)`, and `t.GetOrCreateGroup(groupName, 30*time.Second)`
  unfoldable pub create_group : Bytes → Bytes → Broker W → Option (Broker W)
  create_group name group b =
      Option.map (λ r. put_topic name (Topic.get_or_create_group group (pos 30000000000) r.1).0 r.0)
        (get_or_create_topic name b)

  unfoldable pub reply_created : Option (Broker W) → Session W → Done W
  reply_created none s = crashed
  reply_created (some b) s = next (write ok (with_broker b s))

  -- The loop of XACK.
  unfoldable pub ack_loop : Parts W → Bytes → Bytes → List (Option Bytes) → Broker W → Broker W × ℕ
  ack_loop parts name group [] b = (b, 0)
  ack_loop parts name group (id ∷ ids) b =
      let (b', acked) = Broker.ack parts.wal name group (bytes_of id) b in
      let (b'', n) = ack_loop parts name group ids b' in (b'', (if acked then 1 else 0) + n)

  unfoldable pub refuse_xgroup : Session W → Done W
  refuse_xgroup s = next (write (write_error (codes "unsupported xgroup subcommand")) s)

  unfoldable pub reply_acked : Broker W × ℕ → Session W → Done W
  reply_acked (b, n) s = next (write (write_integer (pos n)) (with_broker b s))

  module _ (parts : Parts W) (env : Env W) where
    unfoldable pub do_xadd : List (Option Bytes) → Session W → Done W
    do_xadd (name ∷ id ∷ field ∷ fields) s =
        reply_id env
          (Broker.publish parts.wal (bytes_of name)
            (some (parts.json_map (payload_map (field ∷ fields) []))) (env.entropy 0) s.broker)
          s
    do_xadd [] s = skip (write (write_error (codes "wrong number of arguments for 'xadd'")) s)
    do_xadd (a ∷ []) s = skip (write (write_error (codes "wrong number of arguments for 'xadd'")) s)
    do_xadd (a ∷ b ∷ []) s =
        skip (write (write_error (codes "wrong number of arguments for 'xadd'")) s)

    unfoldable pub do_xgroup : List (Option Bytes) → Session W → Done W
    do_xgroup (sub ∷ name ∷ group ∷ id ∷ args) s =
        ite (bytes_dec (to_upper parts.unicode (bytes_of sub)) (codes "CREATE"))
          (reply_created (create_group (bytes_of name) (bytes_of group) s.broker) s)
          (refuse_xgroup s)
    do_xgroup [] s = refuse_xgroup s
    do_xgroup (a ∷ []) s = refuse_xgroup s
    do_xgroup (a ∷ b ∷ []) s = refuse_xgroup s
    do_xgroup (a ∷ b ∷ c ∷ []) s = refuse_xgroup s

    unfoldable pub read_group : Found → Session W → Done W
    read_group f s =
        if is_empty_text f.topic || is_empty_text f.group
        then skip (write (write_error (codes "invalid xreadgroup arguments")) s)
        else reply_message
            (Broker.consume_group f.topic f.group f.consumer (wrap64 (f.block_ms *ℤ pos 1000000))
              env.now s.broker env.wakes (env.others s.broker))
            s

    unfoldable pub do_xreadgroup : List (Option Bytes) → Session W → Done W
    do_xreadgroup args s = read_group (find parts.unicode args nothing_found) s

    unfoldable pub do_xack : List (Option Bytes) → Session W → Done W
    do_xack (name ∷ group ∷ id ∷ ids) s =
        reply_acked (ack_loop parts (bytes_of name) (bytes_of group) (id ∷ ids) s.broker) s
    do_xack [] s = skip (write (write_error (codes "wrong number of arguments for 'xack'")) s)
    do_xack (a ∷ []) s = skip (write (write_error (codes "wrong number of arguments for 'xack'")) s)
    do_xack (a ∷ b ∷ []) s =
        skip (write (write_error (codes "wrong number of arguments for 'xack'")) s)
