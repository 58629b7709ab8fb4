-- ===== src/Server/Connections/Limit.antt =====
-- internal/network/server.go: MaxClients, and a connection that is accepted while the server stops.
use vortexmq.Prelude.{
  ℕ, suc, ◌<◌, ◌≤◌, Bool, true, false, ◌&&◌, List, [], ◌∷◌, if◌then◌else◌, ltb, leb, ◌==◌, length,
  ◌≡◌, ◌⊎◌, refl, sym, ap, subst, inl, inr, if-false, arith,
}
use vortexmq.Server.Connections.{
  holding, ServerState, accept_failed, admit, forget, handler_done, shut_all, stop, Step, accepts,
  fails, admits, finishes, stops, IsReachable, at_start, then_step,
}

length-kept :
    (t : Bool) (e : ℕ × Bool) (xs : List (ℕ × Bool)) (n : ℕ)
    → length xs ≤ n
    → length (if t then xs else e ∷ xs) ≤ suc n
length-kept true e xs n h = omega arith
length-kept false e xs n h = omega arith

length-forget : (c : ℕ) (conns : List (ℕ × Bool)) → length (forget c conns) ≤ length conns
unfolding forget
length-forget c [] = omega arith
length-forget c ((d, shut) ∷ conns) =
    length-kept (c == d) (d, shut) (forget c conns) (length conns) (length-forget c conns)

length-shut_all : (conns : List (ℕ × Bool)) → length (shut_all conns) ≡ length conns
unfolding shut_all
length-shut_all [] = refl
length-shut_all ((c, shut) ∷ conns) = ap suc (length-shut_all conns)

-- The number of connections is within the limit, where there is one.
abbrev pub IsWithin : ℕ → ServerState → Type 0
IsWithin max_clients s = 0 < max_clients → length s.conns ≤ max_clients

if-IsWithin :
    (m : ℕ) (t : Bool) (s s' : ServerState)
    → (t ≡ true → IsWithin m s)
    → (t ≡ false → IsWithin m s')
    → IsWithin m (if t then s else s')
if-IsWithin m true s s' p q = p refl
if-IsWithin m false s s' p q = q refl

has_room : (m k : ℕ) → 0 < m → (ltb 0 m && leb m k) ≡ false → suc k ≤ m
has_room m k p e = ground arith

is_admitted : (m k : ℕ) → (m ≡ 0) ⊎ (k < m) → (ltb 0 m && leb m k) ≡ false
is_admitted m k (inl e) = ground arith
is_admitted m k (inr l) = ground arith

admit-IsWithin : (m c : ℕ) (s : ServerState) → IsWithin m s → IsWithin m (admit m c s)
unfolding admit
admit-IsWithin m c s h =
    if-IsWithin m (ltb 0 m && leb m (length s.conns)) _ _ (λ e. h)
      (λ e p. has_room m (length s.conns) p e)

Step-IsWithin : (m : ℕ) {s s' : ServerState} → Step m s s' → IsWithin m s → IsWithin m s'
unfolding accept_failed handler_done stop
Step-IsWithin m (accepts c s e) h = h
Step-IsWithin m (fails s e) h = if-IsWithin m s.closed _ _ (λ e. h) (λ e. h)
Step-IsWithin m (admits c s e) h = admit-IsWithin m c s h
Step-IsWithin m (finishes c s) h = λ p. omega (arith, h p, length-forget c s.conns)
Step-IsWithin m (stops s) h =
    if-IsWithin m s.closed _ _ (λ e. h)
      (λ e p. subst (λ n. n ≤ m) (sym (length-shut_all s.conns)) (h p))

IsReachable-IsWithin : (m : ℕ) {s : ServerState} → IsReachable m s → IsWithin m s
IsReachable-IsWithin m at_start = λ p. omega arith
IsReachable-IsWithin m (then_step r step) = Step-IsWithin m step (IsReachable-IsWithin m r)

-- In every state that the accept loop, the handlers and a caller of Stop can reach in any order, there
-- are at most MaxClients connections, where MaxClients is not 0.
pub IsReachable-le :
    (max_clients : ℕ)
    → 0 < max_clients
    → (s : ServerState) → IsReachable max_clients s
    → length s.conns ≤ max_clients
IsReachable-le m p s r = IsReachable-IsWithin m r p

-- A connection that Accept has returned before Stop, and that comes to the mutex after it with room
-- under the limit, is served by the stopped server: it gets a handler, and nothing has closed its socket,
-- so Stop waits until the client leaves.
pub admit-stop :
    (c : ℕ) (s : ServerState)
    → s.closed ≡ false
    → s.loop ≡ holding c
    → (max_clients : ℕ) → (max_clients ≡ 0) ⊎ (length s.conns < max_clients)
    → (admit max_clients c (stop s)).closed ≡ true
      × ((admit max_clients c (stop s)).conns ≡ (c, false) ∷ (stop s).conns)
      × ((admit max_clients c (stop s)).handlers ≡ suc s.handlers)
unfolding admit stop
admit-stop c s running l m room =
    subst (λ x. Late (admit m c x)) (sym (if-false s.closed _ _ running))
      (subst Late (sym (if-false _ _ _ admitted)) (refl, stopped, refl))
  where
    shut : ServerState
    shut = record s { closed = true; conns = shut_all s.conns }

    Late : ServerState → Type 0
    Late x =
        (x.closed ≡ true)
        × (x.conns ≡ (c, false) ∷ (if s.closed then s else shut).conns)
        × (x.handlers ≡ suc s.handlers)

    admitted : (ltb 0 m && leb m (length shut.conns)) ≡ false
    admitted = is_admitted m _ (elim room [
      | inl e ↦ inl e
      | inr h ↦ inr (subst (λ n. n < m) (sym (length-shut_all s.conns)) h)
    ])

    stopped : (c, false) ∷ shut.conns ≡ (c, false) ∷ (if s.closed then s else shut).conns
    stopped = ap (λ x. (c, false) ∷ x.conns) (sym (if-false s.closed s shut running))
