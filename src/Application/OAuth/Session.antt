-- ===== src/Application/OAuth/Session.antt =====
-- The session gives one grant at most, only for the redirect that it asked for, and then forgets
-- its secrets.
use tersa_app.Prelude.{
  ◌⊎◌, ℕ, ◌+◌, ◌≤◌, ◌≡◌, refl, true, false, List, [], ◌∷◌, arith, Bool-cases, inl, inr, ltb,
}
use tersa_app.Prelude.Result.{Result, ok, err}
use tersa_app.Application.OAuth.Urls.{Url}
use tersa_app.Application.OAuth.{
  OAuthError, AuthorizationSession, AuthorizationGrant, validate_callback, consume, finish, cancel,
  expire, settle,
}

-- one call on the session
pub data Call : Type 0 where
  finishes : ℕ → Url → Call
  cancels : Call
  expires : ℕ → Call

-- whether a call gave a grant
abbrev granted : Result OAuthError AuthorizationGrant → ℕ
granted (ok g) = 1
granted (err e) = 0

abbrev pub call : Call → AuthorizationSession → ℕ × AuthorizationSession
call (finishes now callback) s = let (r, t) = finish now callback s in (granted r, t)
call cancels s = (0, (cancel s).1)
call (expires now) s = (0, (expire now s).1)

-- the number of grants of a history of calls, and the session after it
unfoldable pub calls : List Call → AuthorizationSession → ℕ × AuthorizationSession
calls [] s = (0, s)
calls (c ∷ cs) s = let (n, t) = call c s in let (m, u) = calls cs t in (n + m, u)

-- a consumed session has no secret left
abbrev pub IsWiped : AuthorizationSession → Type 0
IsWiped s = (s.consumed ≡ true) × (s.state ≡ []) × (s.verifier ≡ [])

settle-IsWiped :
    (r : Result OAuthError AuthorizationGrant) (s : AuthorizationSession)
    → s.consumed ≡ true
    → IsWiped (settle r s)
settle-IsWiped (ok g) s h = (h, refl, refl)
settle-IsWiped (err e) s h = (h, refl, refl)

finish-IsWiped :
    (now : ℕ) (callback : Url) (s : AuthorizationSession)
    → s.consumed ≡ false
    → IsWiped (finish now callback s).1
unfolding finish consume
finish-IsWiped now callback s h =
    rw h (settle-IsWiped (validate_callback now (record s { consumed = true }) callback) _ refl)

-- what one call on an unused session does: nothing, or it consumes the session
call_cases :
    (c : Call) (s : AuthorizationSession)
    → s.consumed ≡ false
    → (call c s ≡ (0, s)) ⊎ (((call c s).0 ≤ 1) × IsWiped (call c s).1)
unfolding cancel consume expire
call_cases (finishes now callback) s h =
    inr (granted_le (finish now callback s).0, finish-IsWiped now callback s h)
  where
    granted_le : (r : Result OAuthError AuthorizationGrant) → granted r ≤ 1
    granted_le (ok g) = omega arith
    granted_le (err e) = omega arith
call_cases cancels s h = inr (rw h (omega arith, (refl, refl, refl)))
call_cases (expires now) s h = elim (Bool-cases (ltb now s.expires_at)) [
  | inl early ↦ inl (rw (h, early) refl)
  | inr late ↦ inr (rw (h, late) (omega arith, (refl, refl, refl)))
]

call-used : (c : Call) (s : AuthorizationSession) → s.consumed ≡ true → call c s ≡ (0, s)
unfolding finish cancel consume expire
call-used (finishes now callback) s h = ground arith
call-used cancels s h = ground arith
call-used (expires now) s h = ground arith

calls-used : (cs : List Call) (s : AuthorizationSession) → s.consumed ≡ true → calls cs s ≡ (0, s)
unfolding calls
calls-used [] s h = refl
calls-used (c ∷ cs) s h = rw (call-used c s h) (rw (calls-used cs s h) refl)

-- Over any history of callbacks, cancellations and expiries, an unused session gives at most one
-- grant; and it is unchanged, without a grant, or consumed, with its state and verifier wiped.
pub calls_lem :
    (cs : List Call) (s : AuthorizationSession)
    → s.consumed ≡ false
    → (calls cs s ≡ (0, s)) ⊎ (((calls cs s).0 ≤ 1) × IsWiped (calls cs s).1)
unfolding calls
calls_lem [] s h = inl refl
calls_lem (c ∷ cs) s h = elim (call_cases c s h) [
  | inl same ↦ elim (calls_lem cs s h) [
    | inl none_yet ↦ inl (rw same (rw none_yet refl))
    | inr (few, wiped) ↦ inr (rw same (omega (arith, few), wiped))
  ]
  | inr (few, wiped) ↦ inr (rw (calls-used cs (call c s).1 wiped.0) (omega (arith, few), wiped))
]
