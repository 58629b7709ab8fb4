-- ===== src/Server/Connections.antt =====
-- internal/network/server.go: the set of connections, the accept loop and Stop, as the steps that the
-- server's mutex makes of them. A socket is a number, and whether it has been closed here.
pub mod Limit
use vortexmq.Prelude.{
  ℕ, suc, ◌-◌, Bool, true, false, ◌&&◌, List, [], ◌∷◌, map, if◌then◌else◌, ltb, leb, ◌==◌, length,
  ◌≡◌,
}

-- Where the accept loop is: in Accept, with a connection that Accept has returned, or past its end.
pub data AcceptLoop : Type 0 where
  accepting : AcceptLoop
  holding : ℕ → AcceptLoop
  ended : AcceptLoop

-- `Server`: `conns`, `closed` and the count of `wg`, with the accept loop.
pub record ServerState : Type 0 where
  pub conns : List (ℕ × Bool)
  pub closed : Bool
  pub handlers : ℕ
  pub loop : AcceptLoop

-- `NewServer` and `Start`
abbrev pub started : ServerState
started = record { conns = []; closed = false; handlers = 0; loop = accepting }

-- Accept has returned an error.
unfoldable pub accept_failed : ServerState → ServerState
accept_failed s = if s.closed then record s { loop = ended } else s

-- Accept has returned a connection: it is closed, or gets a handler.
unfoldable pub admit : ℕ → ℕ → ServerState → ServerState
admit max_clients c s =
    if ltb 0 max_clients && leb max_clients (length s.conns)
    then record s { loop = accepting }
    else record s { conns = (c, false) ∷ s.conns; handlers = suc s.handlers; loop = accepting }

-- `delete(s.conns, conn)`
unfoldable pub forget : ℕ → List (ℕ × Bool) → List (ℕ × Bool)
forget c [] = []
forget c ((d, shut) ∷ conns) =
    let rest = forget c conns in if c == d then rest else (d, shut) ∷ rest

-- The deferred function of `handleConnection`.
unfoldable pub handler_done : ℕ → ServerState → ServerState
handler_done c s = record s { conns = forget c s.conns; handlers = s.handlers - 1 }

-- The loop of `Stop` over the connections.
unfoldable pub shut_all : List (ℕ × Bool) → List (ℕ × Bool)
shut_all [] = []
shut_all ((c, shut) ∷ conns) = (c, true) ∷ shut_all conns

-- `Stop`, up to its wait for the handlers.
unfoldable pub stop : ServerState → ServerState
stop s = if s.closed then s else record s { closed = true; conns = shut_all s.conns }

-- The steps of the accept loop, of the handlers and of a caller of Stop, in any order.
pub data Step (max_clients : ℕ) : ServerState → ServerState → Type 0 where
  accepts :
      (c : ℕ) (s : ServerState)
      → s.loop ≡ accepting
      → Step max_clients s (record s { loop = holding c })
  fails : (s : ServerState) → s.loop ≡ accepting → Step max_clients s (accept_failed s)
  admits :
      (c : ℕ) (s : ServerState) → s.loop ≡ holding c → Step max_clients s (admit max_clients c s)
  finishes : (c : ℕ) (s : ServerState) → Step max_clients s (handler_done c s)
  stops : (s : ServerState) → Step max_clients s (stop s)

pub data IsReachable (max_clients : ℕ) : ServerState → Type 0 where
  at_start : IsReachable max_clients started
  then_step :
      {s s' : ServerState}
      → IsReachable max_clients s
      → Step max_clients s s'
      → IsReachable max_clients s'
