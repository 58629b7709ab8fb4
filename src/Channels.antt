-- ===== src/Channels.antt =====
-- internal/queue/broker.go: the broadcast channels. A Go channel is an object in a heap, since the map
-- of subscribers and the subscribers themselves share it.
pub mod Sends
pub mod Members
pub mod Safety
use mathlib.Core.Option
use vortexmq.Prelude.{
  ℕ, ◌+◌, Bool, true, false, Option, none, some, List, [], ◌∷◌, ◌++◌, if◌then◌else◌, ltb, ◌==◌,
  get_elem?, set, length, Bytes, Map, lookup, insert, delete,
}

-- A `chan []byte` with the room of `SubscribeChannel`.
pub record Chan : Type 0 where
  pub buffer : List (Option Bytes)
  pub closed : Bool

abbrev pub chan_capacity : ℕ
chan_capacity = 1024

-- The field `channels`, the sets as lists of places in the heap.
pub record Channels : Type 0 where
  pub subs : Map (List ℕ)
  pub heap : List Chan

abbrev pub no_channels : Channels
no_channels = record { subs = []; heap = [] }

-- `select { case ch <- payload: count++ default: }`; a closed channel panics.
unfoldable pub offer : Option Bytes → Chan → Option (Chan × ℕ)
offer payload c =
    if c.closed
    then none
    else if ltb (length c.buffer) chan_capacity
    then some (record c { buffer = c.buffer ++ (payload ∷ []) }, 1)
    else some (c, 0)

-- One round of the loop of `Broadcast`.
unfoldable pub offer_at : Option Bytes → ℕ → List Chan → Option (List Chan × ℕ)
offer_at payload i heap = elim (get_elem? heap i) [
  | none ↦ none
  | some c ↦ Option.map (λ r. (set heap i r.0, r.1)) (offer payload c)
]

unfoldable pub offer_all : Option Bytes → List ℕ → List Chan → Option (List Chan × ℕ)
offer_all payload [] heap = some (heap, 0)
offer_all payload (i ∷ is) heap = elim (offer_at payload i heap) [
  | none ↦ none
  | some (heap', n) ↦ Option.map (λ r. (r.0, n + r.1)) (offer_all payload is heap')
]

-- `Broadcast`: the number of subscribers that the payload was delivered to.
unfoldable pub send_to : Option Bytes → Option (List ℕ) → Channels → Option (Channels × ℕ)
send_to payload none cs = some (cs, 0)
send_to payload (some is) cs =
    Option.map (λ r. (record cs { heap = r.0 }, r.1)) (offer_all payload is cs.heap)

unfoldable pub broadcast : Bytes → Option Bytes → Channels → Option (Channels × ℕ)
broadcast channel payload cs = send_to payload (lookup channel cs.subs) cs

unfoldable pub places : Option (List ℕ) → List ℕ
places none = []
places (some is) = is

abbrev pub subscribers : Bytes → Channels → List ℕ
subscribers channel cs = places (lookup channel cs.subs)

-- `SubscribeChannel`: the channels and the new one's place.
unfoldable pub subscribe_channel : Bytes → Channels → Channels × ℕ
subscribe_channel channel cs = (
  record {
    subs = insert channel (subscribers channel cs ++ (length cs.heap ∷ [])) cs.subs;
    heap = cs.heap ++ (record { buffer = []; closed = false } ∷ []);
  },
  length cs.heap,
)

-- `delete(subs, ch)`
unfoldable pub without : ℕ → List ℕ → List ℕ
without i [] = []
without i (j ∷ js) = let rest = without i js in if i == j then rest else j ∷ rest

-- `close(ch)`, which panics on a channel that is closed.
unfoldable pub close_at : ℕ → List Chan → Option (List Chan)
close_at i heap = elim (get_elem? heap i) [
  | none ↦ none
  | some c ↦ if c.closed then none else some (set heap i (record c { closed = true }))
]

unfoldable pub put_subs : Bytes → List ℕ → Map (List ℕ) → Map (List ℕ)
put_subs channel [] m = delete channel m
put_subs channel (i ∷ is) m = insert channel (i ∷ is) m

-- `UnsubscribeChannel`; `none` for the panic.
unfoldable pub leave : Bytes → ℕ → Option (List ℕ) → Channels → Option Channels
leave channel i none cs = some cs
leave channel i (some is) cs =
    Option.map (λ heap. record { subs = put_subs channel (without i is) cs.subs; heap = heap })
      (close_at i cs.heap)

unfoldable pub unsubscribe_channel : Bytes → ℕ → Channels → Option Channels
unsubscribe_channel channel i cs = leave channel i (lookup channel cs.subs) cs
