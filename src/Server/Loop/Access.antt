-- ===== src/Server/Loop/Access.antt =====
-- internal/network/server.go: what handleConnection does for a client that has not given the password.
use vortexmq.Prelude.{
  ℕ, zero, suc, ◌<◌, Bool, true, false, Option, List, [], ◌∷◌, length, bytes_dec, lookup, if_neg,
  if-true, if◌then◌else◌, Bytes, ◌≡◌, ◌≢◌, refl, sym, ap, ◌∙◌, subst, arith,
}
use vortexmq.Text.{codes}
use vortexmq.Broker.{Broker}
use vortexmq.Resp.{Command, Read, failed, got, bytes_of, read_command}
use vortexmq.Resp.Progress.{Advances, read_command-Advances}
use vortexmq.Server.{
  Session, Env, Parts, Done, next, skip, leave, asleep, crashed, auth, quit, verb_of,
}
use vortexmq.Server.Lists.{do_auth, check_password}
use vortexmq.Server.Loop.{
  Round, found, End, finished, waiting, died, unfinished, equal, flush_if, settle, after,
  after_read, dispatch, is_refused, handle, serve, handle_connection,
}

-- An AUTH with the password and nothing else.
pub record GivesPassword (password : Bytes) (c : Command) : Type 0 where
  pub arg : Option Bytes
  pub names : c.name ≡ codes "AUTH"
  pub alone : c.args ≡ arg ∷ []
  pub right : bytes_of arg ≡ password

abbrev pub NoneGives : Bytes → List Command → Type 0
NoneGives password [] = Unit
NoneGives password (c ∷ cs) = ¬ GivesPassword password c × NoneGives password cs

-- The commands that can be read from a stream, in order, up to the first error.
unfoldable pub next_commands : (Bytes → List Command) → Read Command → List Command
next_commands rest_of (failed e) = []
next_commands rest_of (got c rest) = c ∷ rest_of rest

unfoldable pub commands : {W : Type 0} → Parts W → ℕ → Bytes → List Command
commands parts zero bs = []
commands parts (suc fuel) bs = next_commands (commands parts fuel) (read_command parts.unicode bs)

verb_of_auth : verb_of (codes "AUTH") ≡ auth
unfolding verb_of lookup bytes_dec
verb_of_auth = refl

verb_of_quit : verb_of (codes "QUIT") ≡ quit
unfolding verb_of lookup bytes_dec
verb_of_quit = refl

module _ {W : Type 0} where
  -- The command comes back, with the same broker and nobody authenticated.
  abbrev pub Unchanged : Session W → Session W → Type 0
  Unchanged s s' = (s'.broker ≡ s.broker) × (s'.authenticated ≡ false)

  abbrev pub Refused : Session W → Done W → Type 0
  Refused s (next s') = Unchanged s s'
  Refused s (skip s') = Unchanged s s'
  Refused s (leave s') = Unchanged s s'
  Refused s (asleep s') = ⊥
  Refused s crashed = ⊥

  -- What the others alone have made of a broker, between the commands of the connection.
  pub data IsLeft (rounds : ℕ → Round W) (b : Broker W) : Broker W → Type 0 where
    as_begun : IsLeft rounds b b
    by_others :
        {b' : Broker W} (i : ℕ) → IsLeft rounds b b' → IsLeft rounds b ((rounds i).between b')

  abbrev pub EndsUnchanged : (ℕ → Round W) → Broker W → End W → Type 0
  EndsUnchanged rounds b (finished s') = IsLeft rounds b s'.broker × (s'.authenticated ≡ false)
  EndsUnchanged rounds b (waiting s') = ⊥
  EndsUnchanged rounds b died = ⊥
  EndsUnchanged rounds b unfinished = ⊥

  settle-Refused :
      (idle : Bool) (s : Session W) (d : Done W) → Refused s d → Refused s (settle idle d)
  unfolding settle flush_if
  settle-Refused true s (next s') r = r
  settle-Refused false s (next s') r = r
  settle-Refused idle s (skip s') r = r
  settle-Refused idle s (leave s') r = r
  settle-Refused idle s (asleep s') r = r
  settle-Refused idle s crashed r = r

  check_password-Refused :
      (password given : Bytes) (s : Session W)
      → password ≢ []
      → given ≢ password
      → s.authenticated ≡ false
      → Refused s (check_password password given s)
  unfolding check_password
  check_password-Refused [] given s ne wrong a = absurd (ne refl)
  check_password-Refused (c ∷ password) given s ne wrong a =
      subst (Refused s) (sym (if_neg (bytes_dec given (c ∷ password)) wrong _ _)) (refl, a)

  do_auth-Refused :
      (password : Bytes) (c : Command) (args : List (Option Bytes)) (s : Session W)
      → password ≢ []
      → c.name ≡ codes "AUTH"
      → c.args ≡ args
      → ¬ GivesPassword password c
      → s.authenticated ≡ false
      → Refused s (do_auth password args s)
  unfolding do_auth
  do_auth-Refused password c [] s ne n e g a = (refl, a)
  do_auth-Refused password c (arg ∷ []) s ne n e g a =
      check_password-Refused password (bytes_of arg) s ne
        (λ r. g (record { arg = arg; names = n; alone = e; right = r })) a
  do_auth-Refused password c (arg ∷ other ∷ args) s ne n e g a = (refl, a)

  if-Refused :
      (t : Bool) (s : Session W) (d d' : Done W)
      → Refused s d
      → Refused s d'
      → Refused s (if t then d else d')
  if-Refused true s d d' p q = p
  if-Refused false s d d' p q = q

  flush_if-Unchanged :
      (idle : Bool) (s s' : Session W) → Unchanged s s' → Unchanged s (flush_if idle s')
  unfolding flush_if
  flush_if-Unchanged true s s' p = p
  flush_if-Unchanged false s s' p = p

  module _ (parts : Parts W) (password : Bytes) (ne : password ≢ []) where
    is_refused-true :
        (c : Command) (s : Session W)
        → c.name ≢ codes "AUTH"
        → c.name ≢ codes "QUIT"
        → s.authenticated ≡ false
        → is_refused parts password c s ≡ true
    unfolding is_refused equal
    is_refused-true c s x y a =
        rw
          (
            a,
            if_neg (bytes_dec c.name (codes "AUTH")) x true false,
            if_neg (bytes_dec c.name (codes "QUIT")) y true false,
          )
          refl

    auth-Refused :
        (env : Env W) (c : Command) (s : Session W)
        → c.name ≡ codes "AUTH"
        → ¬ GivesPassword password c
        → s.authenticated ≡ false
        → Refused s (dispatch parts password env (verb_of c.name) c s)
    unfolding dispatch
    auth-Refused env c s p g a =
        subst (λ v. Refused s (dispatch parts password env v c s))
          (sym (ap verb_of p ∙ verb_of_auth)) (do_auth-Refused password c c.args s ne p refl g a)

    quit-Refused :
        (env : Env W) (c : Command) (s : Session W)
        → c.name ≡ codes "QUIT"
        → s.authenticated ≡ false
        → Refused s (dispatch parts password env (verb_of c.name) c s)
    unfolding dispatch
    quit-Refused env c s p a =
        subst (λ v. Refused s (dispatch parts password env v c s))
          (sym (ap verb_of p ∙ verb_of_quit)) (refl, a)

    handle-Refused :
        (env : Env W) (idle : Bool) (c : Command) (s : Session W)
        → ¬ GivesPassword password c
        → s.authenticated ≡ false
        → Refused s (handle parts password env idle c s)
    unfolding handle
    handle-Refused env idle c s g a = elim (bytes_dec c.name (codes "AUTH")) [
      | yes p ↦
          if-Refused (is_refused parts password c s) s _ _ (flush_if-Unchanged idle s _ (refl, a))
            (settle-Refused idle s _ (auth-Refused env c s p g a))
      | no x ↦ elim (bytes_dec c.name (codes "QUIT")) [
        | yes p ↦
            if-Refused (is_refused parts password c s) s _ _ (flush_if-Unchanged idle s _ (refl, a))
              (settle-Refused idle s _ (quit-Refused env c s p a))
        | no y ↦
            subst (Refused s) (sym (if-true _ _ _ (is_refused-true c s x y a)))
              (flush_if-Unchanged idle s _ (refl, a))
      ]
    ]

    after-EndsUnchanged :
        (rounds : ℕ → Round W) (k : Session W → End W) (s : Session W) (b : Broker W)
        → IsLeft rounds b s.broker
        → ((s' : Session W)
            → IsLeft rounds b s'.broker
            → s'.authenticated ≡ false
            → EndsUnchanged rounds b (k s'))
        → (d : Done W) → Refused s d
        → EndsUnchanged rounds b (after k d)
    unfolding after
    after-EndsUnchanged rounds k s b l h (next s') (p, q) =
        h s' (subst (IsLeft rounds b) (sym p) l) q
    after-EndsUnchanged rounds k s b l h (skip s') (p, q) =
        h s' (subst (IsLeft rounds b) (sym p) l) q
    after-EndsUnchanged rounds k s b l h (leave s') (p, q) = (subst (IsLeft rounds b) (sym p) l, q)
    after-EndsUnchanged rounds k s b l h (asleep s') r = elim r [ ]
    after-EndsUnchanged rounds k s b l h crashed r = elim r [ ]

    after_read-EndsUnchanged :
        (rounds : ℕ → Round W) (s : Session W) (k : Command → Bytes → End W) (b : Broker W) (n : ℕ)
        (rest_of : Bytes → List Command) (r : Read Command)
        → Advances n r
        → IsLeft rounds b s.broker
        → s.authenticated ≡ false
        → NoneGives password (next_commands rest_of r)
        → ((c : Command) (rest : Bytes)
            → length rest < n
            → ¬ GivesPassword password c
            → NoneGives password (rest_of rest)
            → EndsUnchanged rounds b (k c rest))
        → EndsUnchanged rounds b (after_read s k r)
    unfolding after_read next_commands
    after_read-EndsUnchanged rounds s k b n rest_of (failed e) l p a h f = (p, a)
    after_read-EndsUnchanged rounds s k b n rest_of (got c rest) l p a (g, gs) f = f c rest l g gs

    serve-EndsUnchanged :
        (rounds : ℕ → Round W) (b : Broker W) (fuel i : ℕ) (bs : Bytes) (s : Session W)
        → length bs < fuel
        → IsLeft rounds b s.broker
        → s.authenticated ≡ false
        → NoneGives password (commands parts fuel bs)
        → EndsUnchanged rounds b (serve parts password rounds fuel i bs s)
    unfolding serve commands found
    serve-EndsUnchanged rounds b zero i bs s l p a h = elim l [ ]
    serve-EndsUnchanged rounds b (suc fuel) i bs s l p a h =
        after_read-EndsUnchanged rounds s _ b (length bs) (commands parts fuel)
          (read_command parts.unicode bs) (read_command-Advances parts.unicode bs) p a h
          (λ c rest l' g gs.
            after-EndsUnchanged rounds (serve parts password rounds fuel (suc i) rest)
              (found (rounds i).between s) b (IsLeft.by_others i p)
              (λ s' p' a'. serve-EndsUnchanged rounds b fuel (suc i) rest s' (omega arith) p' a' gs)
              (handle parts password (rounds i).env (rounds i).idle c (found (rounds i).between s))
              (handle-Refused (rounds i).env (rounds i).idle c (found (rounds i).between s) g a))

    -- Where the server has a password and no command that a client sends is an AUTH with that password as
    -- its one argument, the handler of the connection comes to its end, and the broker is what the others
    -- have made of the one that it started with, between the commands: such a client publishes, takes,
    -- acknowledges and creates nothing.
    pub handle_connection-EndsUnchanged :
        (rounds : ℕ → Round W) (bs : Bytes) (b : Broker W)
        → NoneGives password (commands parts (suc (length bs)) bs)
        → EndsUnchanged rounds b (handle_connection parts password rounds bs b)
    unfolding handle_connection equal
    handle_connection-EndsUnchanged rounds bs b h =
        serve-EndsUnchanged rounds b (suc (length bs)) 0 bs _ (omega arith) as_begun
          (if_neg (bytes_dec password []) ne true false) h
