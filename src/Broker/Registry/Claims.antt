-- ===== src/Broker/Registry/Claims.antt =====
-- The registry is bounded, a handle is claimed once, and no live session is ever evicted.
use tersa_app.Prelude.{
  ℕ, ◌≤◌, ◌≡◌, refl, true, false, none, some, List, length, length-keep-le, leb, if◌then◌else◌,
  arith, inl, inr, Bool-cases, Option-cases, ◌⊎◌,
}
use tersa_app.Prelude.Result.{Result, ok, err, is_err}
use tersa_app.Prelude.Text.{Text}
use tersa_app.Application.OAuth.{AuthorizationSession, expire}
use tersa_app.Broker.{BrokerError, busy, session_unknown, unavailable}
use tersa_app.Broker.Registry.{
  Sessions, SessionRegistry, find_session, without, reap, allocate, insert, claim,
}
use tersa_app.Broker.Registry.Allocation.{
  distinct_handles, keep-distinct, without-unpending, unpending-find, IsBounded, IsAllocated,
  allocate-IsAllocated, keep-find,
}

-- the end of an insertion: the live sessions and what an allocation makes of them
abbrev admit :
    SessionRegistry
    → Sessions
    → Result BrokerError Text × Sessions
    → Result BrokerError Text × SessionRegistry
admit r live a =
    if leb 8 (length live)
    then (err busy, record r { sessions = live })
    else (a.0, record r { sessions = a.1 })

module _ (session : AuthorizationSession) (r : SessionRegistry) (live : Sessions)
    (a : Result BrokerError Text × Sessions) (i : IsAllocated session live a) where
  admit-IsBounded : length live ≤ 8 → distinct_handles live ≡ true → IsBounded (admit r live a).1
  admit-IsBounded l d = elim (Bool-cases (leb 8 (length live))) [
    | inl full ↦ rw full (record { few = l; distinct = d })
    | inr room ↦ rw room (record { few = ground (arith, i.few, room); distinct = i.distinct })
  ]

  admit_keeps :
      (handle : Text) (s : AuthorizationSession)
      → find_session handle live ≡ some s
      → find_session handle (admit r live a).1.sessions ≡ some s
  admit_keeps handle s h = elim (Bool-cases (leb 8 (length live))) [
    | inl full ↦ rw full h
    | inr room ↦ rw room (i.kept handle s h)
  ]

  admit_places :
      (handle : Text)
      → (admit r live a).0 ≡ ok handle
      → (find_session handle (admit r live a).1.sessions ≡ some session)
        × (find_session handle live ≡ none)
  admit_places handle = elim (Bool-cases (leb 8 (length live))) [
    | inl full ↦ rw full (λ h. absurd (ground arith))
    | inr room ↦ rw room (i.placed handle)
  ]

admit_poisoned :
    (r : SessionRegistry) (live : Sessions) (a : Result BrokerError Text × Sessions)
    → r.poisoned ≡ false
    → (admit r live a).1.poisoned ≡ false
admit_poisoned r live a h = elim (Bool-cases (leb 8 (length live))) [
  | inl full ↦ rw full h
  | inr room ↦ rw room h
]

reap-distinct :
    (now : Text → ℕ) (ss : Sessions)
    → distinct_handles ss ≡ true
    → distinct_handles (reap now ss) ≡ true
unfolding reap
reap-distinct now ss h = keep-distinct _ ss h

insert_admits :
    (encode_base64 : List ℕ → Text) (entropy : ℕ → Result BrokerError (List ℕ)) (now : Text → ℕ)
    (session : AuthorizationSession) (r : SessionRegistry)
    → r.poisoned ≡ false
    → insert encode_base64 entropy session now r
      ≡ admit r
          (reap now r.sessions)
          (allocate encode_base64 entropy session 3 0 (reap now r.sessions))
unfolding insert
insert_admits encode_base64 entropy now session r healthy = rw healthy refl

insert_refused :
    (encode_base64 : List ℕ → Text) (entropy : ℕ → Result BrokerError (List ℕ)) (now : Text → ℕ)
    (session : AuthorizationSession) (r : SessionRegistry)
    → r.poisoned ≡ true
    → (insert encode_base64 entropy session now r).0 ≡ err unavailable
unfolding insert
insert_refused encode_base64 entropy now session r poisoned = rw poisoned refl

claim_twice :
    (handle : Text) (session : AuthorizationSession) (r : SessionRegistry)
    → r.poisoned ≡ false
    → find_session handle r.sessions ≡ some session
    → ((claim handle r).0 ≡ ok session)
      × ((claim handle (claim handle r).1).0 ≡ err session_unknown)
unfolding claim
claim_twice handle session r healthy found =
    ground (
      arith,
      unpending-find handle (without handle r.sessions) (without-unpending handle r.sessions),
    )

-- Whatever the clock and the entropy source answer, an insertion into a healthy registry of at most
-- eight sessions under distinct handles, also one that fails, leaves a healthy registry of at most
-- eight sessions under distinct handles; and a session of the registry has expired or is still found
-- under its handle.
pub insert_lem :
    (encode_base64 : List ℕ → Text) (entropy : ℕ → Result BrokerError (List ℕ)) (now : Text → ℕ)
    (session : AuthorizationSession) (handle : Text) (r : SessionRegistry)
    → IsBounded r
    → r.poisoned ≡ false
    → let r' = (insert encode_base64 entropy session now r).1 in
      IsBounded r'
      × (r'.poisoned ≡ false)
      × ((find_session handle r.sessions ≡ none)
          ⊎ ((s : AuthorizationSession) × (find_session handle r.sessions ≡ some s)
              × ((is_err (expire (now handle) s).0 ≡ false)
                  ⊎ (find_session handle r'.sessions ≡ some s))))
unfolding reap
insert_lem encode_base64 entropy now session handle r b healthy =
    let kept = reap now r.sessions in
    let i =
      allocate-IsAllocated encode_base64 entropy session 3 0 kept
        (keep-distinct _ r.sessions b.distinct) in
    rw (insert_admits encode_base64 entropy now session r healthy) (
      admit-IsBounded session r kept _ i
          (omega (arith, b.few, length-keep-le (λ p. is_err (expire (now p.0) p.1).0) r.sessions))
          (keep-distinct _ r.sessions b.distinct),
      admit_poisoned r kept (allocate encode_base64 entropy session 3 0 kept) healthy,
      elim (Option-cases (find_session handle r.sessions)) [
        | inl absent ↦ inl absent
        | inr (s, found) ↦ inr (
          s,
          found,
          elim (Bool-cases (is_err (expire (now handle) s).0)) [
            | inl live ↦ inr (
                admit_keeps session r kept _ i handle s
                  (keep-find _ handle s r.sessions found live))
            | inr expired ↦ inl expired
          ],
        )
      ],
    )

-- In a registry of at most eight sessions under distinct handles, a handle that an insertion returns
-- names no other live session; the first claim of it gives the inserted session, and the next one
-- finds nothing.
pub claim-insert :
    (encode_base64 : List ℕ → Text) (entropy : ℕ → Result BrokerError (List ℕ)) (now : Text → ℕ)
    (session : AuthorizationSession) (handle : Text) (r : SessionRegistry)
    → IsBounded r
    → (insert encode_base64 entropy session now r).0 ≡ ok handle
    → let r' = (insert encode_base64 entropy session now r).1 in
      ((claim handle r').0 ≡ ok session)
      × ((claim handle (claim handle r').1).0 ≡ err session_unknown)
      × (find_session handle (reap now r.sessions) ≡ none)
claim-insert encode_base64 entropy now session handle r b = elim (Bool-cases r.poisoned) [
  | inl poisoned ↦
      λ h. absurd (ground (arith, insert_refused encode_base64 entropy now session r poisoned))
  | inr healthy ↦ rw (insert_admits encode_base64 entropy now session r healthy) (λ h.
      let kept = reap now r.sessions in
      let i =
        allocate-IsAllocated encode_base64 entropy session 3 0 kept
          (reap-distinct now r.sessions b.distinct) in
      let (found, free) = admit_places session r kept _ i handle h in
      let (first, second) =
        claim_twice handle session
          (admit r kept (allocate encode_base64 entropy session 3 0 kept)).1
          (admit_poisoned r kept (allocate encode_base64 entropy session 3 0 kept) healthy) found in
      (first, second, free))
]
