-- ===== src/Broker/Registry/Allocation.antt =====
-- Removing sessions from the registry, and allocating a handle in it.
use tersa_app.Prelude.{
  ℕ, zero, suc, ◌+◌, ◌≤◌, ◌≡◌, refl, Bool, true, false, not, ◌&&◌, none, some, List, [], ◌∷◌, keep,
  length, arith, inl, inr, Bool-cases,
}
use tersa_app.Prelude.Result.{Result, ok, err}
use tersa_app.Prelude.Text.{Text, text_eq_iff, text_eq_refl}
use tersa_app.Application.OAuth.{AuthorizationSession}
use tersa_app.Broker.{BrokerError}
use tersa_app.Broker.Registry.{
  Sessions, SessionRegistry, is_pending, find_session, without, place, allocate,
}

-- no handle twice, which a map's keys are
unfoldable pub distinct_handles : Sessions → Bool
distinct_handles [] = true
distinct_handles ((handle, session) ∷ rest) = not (is_pending handle rest) && distinct_handles rest

module _ (p : Text × AuthorizationSession → Bool) where
  pub keep-unpending :
      (handle : Text) (ss : Sessions)
      → is_pending handle ss ≡ false
      → is_pending handle (keep p ss) ≡ false
  unfolding is_pending
  keep-unpending handle [] h = refl
  keep-unpending handle (s ∷ ss) h = ground (arith, keep-unpending handle ss)

  pub keep-distinct :
      (ss : Sessions) → distinct_handles ss ≡ true → distinct_handles (keep p ss) ≡ true
  unfolding distinct_handles
  keep-distinct [] h = refl
  keep-distinct ((handle, session) ∷ ss) h =
      ground (arith, keep-distinct ss, keep-unpending handle ss)

pub without-unpending :
    (handle : Text) (ss : Sessions) → is_pending handle (without handle ss) ≡ false
unfolding is_pending without
without-unpending handle [] = refl
without-unpending handle (s ∷ ss) = ground (arith, without-unpending handle ss)

pub unpending-find :
    (handle : Text) (ss : Sessions) → is_pending handle ss ≡ false → find_session handle ss ≡ none
unfolding is_pending find_session
unpending-find handle [] h = refl
unpending-find handle ((key, s) ∷ ss) h = ground (arith, unpending-find handle ss)

-- the registry's invariant: at most eight sessions, under distinct handles
pub record IsBounded (r : SessionRegistry) : Type 0 where
  pub few : length r.sessions ≤ 8
  pub distinct : distinct_handles r.sessions ≡ true

-- what an allocation makes of the sessions, and of its answer
pub record IsAllocated (session : AuthorizationSession) (ss : Sessions)
    (a : Result BrokerError Text × Sessions) : Type 0 where
  pub few : length a.1 ≤ suc (length ss)
  pub distinct : distinct_handles a.1 ≡ true
  pub kept :
      (handle : Text) (s : AuthorizationSession)
      → find_session handle ss ≡ some s
      → find_session handle a.1 ≡ some s
  pub placed :
      (handle : Text)
      → a.0 ≡ ok handle
      → (find_session handle a.1 ≡ some session) × (find_session handle ss ≡ none)

pub new-IsAllocated :
    (session : AuthorizationSession) (ss : Sessions) (handle : Text)
    → distinct_handles ss ≡ true
    → is_pending handle ss ≡ false
    → IsAllocated session ss (ok handle, (handle, session) ∷ ss)
unfolding distinct_handles find_session
new-IsAllocated session ss handle d free = record {
  few = omega arith;
  distinct = ground arith;
  kept = λ other s h. ground (arith, unpending-find handle ss free, text_eq_iff handle other);
  placed = λ other h. ground (arith, text_eq_refl handle, unpending-find handle ss free);
}

module _ (encode_base64 : List ℕ → Text) (entropy : ℕ → Result BrokerError (List ℕ))
    (session : AuthorizationSession) where
  pub place-IsAllocated :
      (ss : Sessions) (again : Result BrokerError Text × Sessions) (r : Result BrokerError (List ℕ))
      → distinct_handles ss ≡ true
      → IsAllocated session ss again
      → IsAllocated session ss (place encode_base64 entropy session ss again r)
  place-IsAllocated ss again (err e) d a = record {
    few = omega arith;
    distinct = d;
    kept = λ handle s h. h;
    placed = λ handle h. absurd (ground arith);
  }
  place-IsAllocated ss again (ok bytes) d a =
      elim (Bool-cases (is_pending (encode_base64 bytes) ss)) [
        | inl taken ↦ rw taken a
        | inr free ↦ rw free (new-IsAllocated session ss (encode_base64 bytes) d free)
      ]

  pub allocate-IsAllocated :
      (attempts request : ℕ) (ss : Sessions)
      → distinct_handles ss ≡ true
      → IsAllocated session ss (allocate encode_base64 entropy session attempts request ss)
  unfolding allocate
  allocate-IsAllocated zero request ss d = record {
    few = omega arith;
    distinct = d;
    kept = λ handle s h. h;
    placed = λ handle h. absurd (ground arith);
  }
  allocate-IsAllocated (suc attempts) request ss d =
      place-IsAllocated ss _ (entropy request) d (allocate-IsAllocated attempts (request + 1) ss d)

pub keep-find :
    (p : Text × AuthorizationSession → Bool) (handle : Text) (s : AuthorizationSession)
    (ss : Sessions)
    → find_session handle ss ≡ some s
    → p (handle, s) ≡ true
    → find_session handle (keep p ss) ≡ some s
unfolding find_session
keep-find p handle s [] h k = cc
keep-find p handle s ((key, t) ∷ ss) h k =
    ground (arith, keep-find p handle s ss, text_eq_iff key handle)
