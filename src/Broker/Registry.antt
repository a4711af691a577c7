-- ===== src/Broker/Registry.antt =====
-- adapters/token-broker-core/src/registry.rs: the pending sessions by their handle. The clock and
-- the entropy source are ports: the time is the one read when a session is looked at, and
-- `entropy k` is the answer to the k-th request of an insertion.
pub mod Allocation
pub mod Claims
use tersa_app.Prelude.{
  ℕ, zero, suc, ◌+◌, Bool, true, false, not, Option, none, some, List, [], ◌∷◌, any, keep, length,
  leb, if◌then◌else◌,
}
use tersa_app.Prelude.Result.{Result, ok, err, ok_or, is_err}
use tersa_app.Prelude.Text.{Text, text_eq}
use tersa_app.Application.OAuth.{AuthorizationSession, expire}
use tersa_app.Broker.{BrokerError, busy, session_unknown, unavailable}

abbrev pub max_pending_sessions : ℕ
max_pending_sessions = 8

abbrev pub max_handle_allocation_attempts : ℕ
max_handle_allocation_attempts = 3

abbrev pub Sessions : Type 0
Sessions = List (Text × AuthorizationSession)

pub record SessionRegistry : Type 0 where
  pub sessions : Sessions
  pub poisoned : Bool

unfoldable pub is_pending : Text → Sessions → Bool
is_pending handle sessions = any (λ p. text_eq p.0 handle) sessions

unfoldable pub find_session : Text → Sessions → Option AuthorizationSession
find_session handle [] = none
find_session handle ((key, session) ∷ rest) =
    if text_eq key handle then some session else find_session handle rest

-- `sessions.remove(handle)`, on the map
unfoldable pub without : Text → Sessions → Sessions
without handle sessions = keep (λ p. not (text_eq p.0 handle)) sessions

-- `guard.retain(|_handle, session| session.expire().is_err())`
unfoldable pub reap : (Text → ℕ) → Sessions → Sessions
unfolding expire
reap now sessions = keep (λ p. is_err (expire (now p.0) p.1).0) sessions

module _ (encode_base64 : List ℕ → Text) (entropy : ℕ → Result BrokerError (List ℕ))
    (session : AuthorizationSession) where
  abbrev pub place :
      Sessions
      → Result BrokerError Text × Sessions
      → Result BrokerError (List ℕ)
      → Result BrokerError Text × Sessions
  place sessions again (err e) = (err e, sessions)
  place sessions again (ok bytes) =
      let handle = encode_base64 bytes in
      if is_pending handle sessions then again else (ok handle, (handle, session) ∷ sessions)

  -- the loop of `insert`: the attempts left, and the number of the next request
  unfoldable pub allocate : ℕ → ℕ → Sessions → Result BrokerError Text × Sessions
  unfolding is_pending
  allocate zero request sessions = (err unavailable, sessions)
  allocate (suc attempts) request sessions =
      place sessions (allocate attempts (request + 1) sessions) (entropy request)

  -- `SessionRegistry::insert`; a poisoned lock drains the map
  unfoldable pub insert : (Text → ℕ) → SessionRegistry → Result BrokerError Text × SessionRegistry
  unfolding reap allocate
  insert now r =
      if r.poisoned
      then (err unavailable, record r { sessions = [] })
      else (let live = reap now r.sessions in
          if leb max_pending_sessions (length live)
          then (err busy, record r { sessions = live })
          else (let (h, sessions) = allocate max_handle_allocation_attempts 0 live in
              (h, record r { sessions = sessions })))

-- `SessionRegistry::claim`
unfoldable pub claim :
    Text → SessionRegistry → Result BrokerError AuthorizationSession × SessionRegistry
unfolding find_session without
claim handle r = if r.poisoned then (err unavailable, record r { sessions = [] }) else (
  ok_or session_unknown (find_session handle r.sessions),
  record r { sessions = without handle r.sessions },
)
