-- ===== src/Server/Lists/Order.antt =====
-- internal/network/server.go: LPUSH followed by RPOP.
use vortexmq.Prelude.{
  suc, Bool, true, false, Option, none, some, List, [], ◌∷◌, ◌++◌, length, Bytes, lookup, ◌≡◌, refl,
  ap, ap₂, ◌∙◌, subst, if-false,
}
use vortexmq.Int.{pos, of_word}
use vortexmq.Deque.{Deque, do_push_front, room_front}
use vortexmq.Ring
use vortexmq.Ring.Refine.{Refines}
use vortexmq.Ring.Pops.{len-Refines}
use vortexmq.Message.{Message}
use vortexmq.Topic
use vortexmq.Topic.{Topic}
use vortexmq.Broker
use vortexmq.Broker.{Broker, write_wal}
use vortexmq.Broker.Publish.{made, numbered}
use vortexmq.Broker.Front.{publish_front-Refines}
use vortexmq.Broker.Consume.{consume-Refines}
use vortexmq.Resp.{bytes_of, write_integer, write_bulk_string}
use vortexmq.Server.{Session, Env, Parts, next, crashed, write, with_broker}
use vortexmq.Server.Lists.{
  push_loop, reply_pushed, reply_length, do_lpush, do_rpop, consume_for, reply_payload,
}

-- RPOP on a topic in which a message waits, with no other client in between: the reply is the payload
-- of the oldest one, and the ring holds the others in their order.
pub do_rpop-waiting :
    {W : Type 0} (env : Env W) (alone : (b : Broker W) → env.others b ≡ b) (name : Option Bytes)
    (args : List (Option Bytes)) (s : Session W) (t : Topic)
    (found : lookup (bytes_of name) s.broker.topics ≡ some t) (d : Deque Message)
    (f : Refines t.ring d) (m : Message) (ms : List Message) (waiting : d.items ≡ m ∷ ms)
    → (b' : Broker W) × (t' : Topic) × (do_rpop env (name ∷ args) s
        ≡ next (write (write_bulk_string m.payload) (with_broker b' s)))
      × (lookup (bytes_of name) b'.topics ≡ some t')
      × Refines t'.ring (record d { items = ms })
unfolding do_rpop consume_for reply_payload
do_rpop-waiting env alone name args s t found d f m ms waiting =
    let (b', t', e, l, f', others) =
      consume-Refines t d f m ms waiting (bytes_of name) s.broker found (pos 0) env.wakes in
    (
      b',
      t',
      ap
            (λ later.
              reply_payload (write_bulk_string none)
                (Broker.consume (bytes_of name) (pos 0) s.broker env.wakes later) s)
            (alone s.broker)
          ∙ ap (λ r. reply_payload (write_bulk_string none) r s) e,
      l,
      f',
    )

module _ {W : Type 0} (parts : Parts W) (env : Env W) (name v : Option Bytes) (s : Session W) where
  push_loop-one :
      (b' : Broker W) (m : Option Message)
      → Broker.publish_front parts.wal (bytes_of name) v (env.entropy 0) s.broker ≡ some (b', m)
      → push_loop (Broker.publish_front parts.wal) env (bytes_of name) 0 (v ∷ []) s.broker ≡ some b'
  unfolding push_loop
  push_loop-one b' m e = rw (e, push_loop) refl

  do_lpush-one :
      (b' : Broker W) (m : Option Message) (t' : Topic)
      → Broker.publish_front parts.wal (bytes_of name) v (env.entropy 0) s.broker ≡ some (b', m)
      → lookup (bytes_of name) b'.topics ≡ some t'
      → do_lpush parts env (name ∷ v ∷ []) s
        ≡ next (write (write_integer (of_word (Ring.len t'.ring))) (with_broker b' s))
  unfolding do_lpush reply_pushed reply_length Topic.stats
  do_lpush-one b' m t' e l =
      ap (λ o. reply_pushed (bytes_of name) o s) (push_loop-one b' m e)
      ∙ ap (λ o. reply_length crashed o (with_broker b' s)) l

module _ (d : Deque Message) where
  abbrev with_front : Message → Deque Message
  with_front m = record d { items = m ∷ (room_front d).items; capacity = (room_front d).capacity }

  do_push_front-open : (m : Message) → d.closed ≡ false → (do_push_front m d).0 ≡ with_front m
  unfolding do_push_front
  do_push_front-open m h = ap (λ (p : Deque Message × Bool). p.0) (if-false d.closed _ _ h)

  answers :
      (v : Option Bytes) (m : Message) (t : Topic) (before : Bytes)
      → Refines t.ring (with_front m)
      → m.payload ≡ v
      → (before ++ write_integer (of_word (Ring.len t.ring))) ++ write_bulk_string m.payload
        ≡ (before ++ write_integer (of_word (suc (length (room_front d).items))))
          ++ write_bulk_string v
  answers v m t before f e =
      ap₂ (λ n p. (before ++ write_integer (of_word n)) ++ write_bulk_string p)
        (len-Refines t.ring (with_front m) f) e

-- LPUSH of one value, whose bytes nothing overwrites (as those that the reader has copied for the
-- argument of an array command), on an existing, open topic with an open ring, where the log takes the
-- message, then RPOP on it, with no other client in between: LPUSH answers with the number of waiting
-- messages, RPOP answers with the value that was pushed last, and what waited before waits again, less
-- a message that had to go from a full ring. So RPOP takes a message from the same end as LPUSH puts it,
-- and the two make a stack.
pub do_lpush-do_rpop :
    {W : Type 0} (parts : Parts W) (env later : Env W) (alone : (b : Broker W) → later.others b ≡ b)
    (name v : Option Bytes) (s : Session W) (t : Topic)
    (found : lookup (bytes_of name) s.broker.topics ≡ some t) (d : Deque Message)
    (f : Refines t.ring d) (open_topic : t.closed ≡ false) (open_ring : d.closed ≡ false)
    → (write_wal parts.wal
        (made parts.wal (bytes_of name) v (env.entropy 0) s.broker t found)
        (numbered parts.wal (bytes_of name) v (env.entropy 0) s.broker t found)).1
      ≡ true
    → (s' : Session W) × (s'' : Session W) × (t' : Topic) × (do_lpush parts env (name ∷ v ∷ []) s
        ≡ next s')
      × (do_rpop later (name ∷ []) s' ≡ next s'')
      × (s''.output
          ≡ (s.output ++ write_integer (of_word (suc (length (room_front d).items))))
            ++ write_bulk_string v)
      × (lookup (bytes_of name) s''.broker.topics ≡ some t')
      × Refines t'.ring
          (record d { items = (room_front d).items; capacity = (room_front d).capacity })
do_lpush-do_rpop {W = W} parts env later alone name v s t found d f open_topic open_ring taken =
    let (b', t', m, e, same, l, f') =
      publish_front-Refines parts.wal (bytes_of name) v (env.entropy 0) s.broker t found d f
        open_topic open_ring taken in
    let g : Refines t'.ring (with_front d m) =
      subst (Refines t'.ring) (do_push_front-open d m open_ring) f' in
    let s' : Session W = write (write_integer (of_word (Ring.len t'.ring))) (with_broker b' s) in
    let (b'', t'', e', l', f'') =
      do_rpop-waiting later alone name [] s' t' l (with_front d m) g m (room_front d).items refl in
    (
      s',
      write (write_bulk_string m.payload) (with_broker b'' s'),
      t'',
      do_lpush-one parts env name v s b' (some m) t' e l,
      e',
      answers d v m t' s.output g same,
      l',
      f'',
    )
