-- ===== src/Broker/Journal/Answers.antt =====
-- How the refresh call ends, in the journal.
use tersa_app.Prelude.{
  ℕ, ◌≡◌, ◌≢◌, inl, inr, refl, sym, ◌∙◌, ap, Bool, true, false, List, [], ◌∷◌, arith, Bool-cases,
}
use tersa_app.Prelude.Result
use tersa_app.Prelude.Result.{Result, ok, err, map_err}
use tersa_app.Prelude.Text.{Text}
use tersa_app.Application.Token
use tersa_app.Application.Token.Identity.{consent_revoked_iff}
use tersa_app.Application.Token.{
  TokenError, TokenTransportError, TokenClientConfig, TokenResponse, TokenSuccess,
  TokenScopeOutcome, granted, under_scoped, scope_outcome_from_response, from_parts,
  validate_account_subject, with_identity, IdentityExpiry, validate_fresh,
  refresh_access_token_with_scope_outcome, refresh_parameters, map_transport_error, require_scope,
}
use tersa_app.Broker.Core.{Ports}
use tersa_app.Broker.Core.Refresh.{refresh_stored}
use tersa_app.Broker.Journal.{Event, refreshed, journal, logged}
use tersa_app.Broker.Journal.Outcome.{rotated_of}

identity_rotated :
    (response : TokenResponse) (now : ℕ) (r : Result TokenError (Text × IdentityExpiry))
    (outcome : TokenScopeOutcome)
    → with_identity response now r ≡ ok outcome
    → rotated_of outcome ≡ response.rotated_refresh_token
identity_rotated response now (err e) outcome h = absurd (ground arith)
identity_rotated response now (ok (subject, expiry)) (granted success) h = ground arith
identity_rotated response now (ok (subject, expiry)) (under_scoped token rotated) h =
    absurd (ground arith)

scope_rotated :
    (response : TokenResponse) (now : ℕ) (config : TokenClientConfig) (outcome : TokenScopeOutcome)
    → scope_outcome_from_response response now config ≡ ok outcome
    → rotated_of outcome ≡ response.rotated_refresh_token
unfolding scope_outcome_from_response from_parts
scope_rotated response now config (granted success) h =
    identity_rotated response now (validate_account_subject response.id_token_claims config)
      (granted success) (ground arith)
scope_rotated response now config (under_scoped token rotated) h =
    elim (Bool-cases response.gmail_read_granted) [
      | inl wide ↦
          identity_rotated response now (validate_account_subject response.id_token_claims config)
            (under_scoped token rotated) (ground arith)
      | inr narrow ↦ ground arith
    ]

module _ (token : Text) (config : TokenClientConfig) (now : ℕ) where
  outcome_response :
      (reply : Result TokenTransportError TokenResponse) (outcome : TokenScopeOutcome)
      → refresh_access_token_with_scope_outcome token config (λ _. reply) now ≡ ok outcome
      → (response : TokenResponse) × (reply ≡ ok response)
        × (rotated_of outcome ≡ response.rotated_refresh_token)
  unfolding refresh_access_token_with_scope_outcome
  outcome_response (err e) outcome h = absurd (ground arith)
  outcome_response (ok response) outcome h =
      (response, refl, scope_rotated response now config outcome h)

  revoked_by_answer :
      (reply : Result TokenTransportError TokenResponse)
      → refresh_access_token_with_scope_outcome token config (λ _. reply) now
        ≡ err TokenError.consent_revoked
      → reply ≡ err TokenTransportError.invalid_grant
  unfolding Token.refresh_access_token
  revoked_by_answer reply h =
      (consent_revoked_iff token (record { code = []; verifier = [] }) config (λ _. reply) now).0.0
        (ap (λ r. Result.◌>>=◌ r require_scope) h)

-- the answer after which the stored token is useless
abbrev pub is_invalid_grant : Result TokenTransportError TokenResponse → Bool
is_invalid_grant (err TokenTransportError.invalid_grant) = true
is_invalid_grant _ = false

abbrev pub is_revoked : TokenError → Bool
is_revoked TokenError.consent_revoked = true
is_revoked _ = false

pub invalid_grant_lem :
    (answer : Result TokenTransportError TokenResponse)
    → is_invalid_grant answer ≡ true
    → answer ≡ err TokenTransportError.invalid_grant
invalid_grant_lem (ok response) h = absurd (ground arith)
invalid_grant_lem (err TokenTransportError.invalid_grant) h = refl
invalid_grant_lem (err TokenTransportError.transport) h = absurd (ground arith)
invalid_grant_lem (err TokenTransportError.invalid_token) h = absurd (ground arith)
invalid_grant_lem (err TokenTransportError.provider_rejected) h = absurd (ground arith)
invalid_grant_lem (err TokenTransportError.malformed_response) h = absurd (ground arith)

unrevoked_lem : (e : TokenError) → e ≢ TokenError.consent_revoked → is_revoked e ≡ false
unrevoked_lem TokenError.consent_revoked h = absurd (h refl)
unrevoked_lem TokenError.invalid_configuration h = refl
unrevoked_lem TokenError.transport h = refl
unrevoked_lem TokenError.provider_rejected h = refl
unrevoked_lem TokenError.authorization_code_rejected h = refl
unrevoked_lem TokenError.malformed_response h = refl
unrevoked_lem TokenError.insufficient_scope h = refl
unrevoked_lem TokenError.identity_unverified h = refl

-- a failed refresh says that the consent is revoked just when the answer says so
answer_revoked :
    (token : Text) (config : TokenClientConfig) (now : ℕ)
    (reply : Result TokenTransportError TokenResponse) (e : TokenError)
    → refresh_access_token_with_scope_outcome token config (λ _. reply) now ≡ err e
    → is_invalid_grant reply ≡ is_revoked e
unfolding refresh_access_token_with_scope_outcome map_transport_error
answer_revoked token config now (err TokenTransportError.invalid_grant) e h = ground arith
answer_revoked token config now (err TokenTransportError.transport) e h = ground arith
answer_revoked token config now (err TokenTransportError.invalid_token) e h = ground arith
answer_revoked token config now (err TokenTransportError.provider_rejected) e h = ground arith
answer_revoked token config now (err TokenTransportError.malformed_response) e h = ground arith
answer_revoked token config now (ok response) e h = sym (
    unrevoked_lem e (λ same.
      let gone : ok response ≡ err TokenTransportError.invalid_grant =
        revoked_by_answer token config now (ok response) (h ∙ ap err same) in
      absurd (ground arith)))

module _ {W : Type 0} where
  -- how the refresh call ends
  abbrev pub Asked : List Event → Result TokenError TokenScopeOutcome → W × List Event → Type 0
  Asked base (ok outcome) s' =
      (response : TokenResponse) × (rotated_of outcome ≡ response.rotated_refresh_token)
      × (s'.1 ≡ refreshed (ok response) ∷ base)
  Asked base (err e) s' =
      (answer : Result TokenTransportError TokenResponse) × (s'.1 ≡ refreshed answer ∷ base)
      × (is_invalid_grant answer ≡ is_revoked e)

  answer-Asked :
      (base : List Event) (reply : Result TokenTransportError TokenResponse)
      (r : Result TokenError TokenScopeOutcome) (s' : W × List Event)
      → s'.1 ≡ refreshed reply ∷ base
      → ((outcome : TokenScopeOutcome)
          → r ≡ ok outcome
          → (response : TokenResponse) × (reply ≡ ok response)
            × (rotated_of outcome ≡ response.rotated_refresh_token))
      → ((e : TokenError) → r ≡ err e → is_invalid_grant reply ≡ is_revoked e)
      → Asked base r s'
  answer-Asked base reply (ok outcome) s' h replies revoked =
      let (response, replied, rotated) = replies outcome refl in
      (response, rotated, h ∙ ap (λ x. refreshed x ∷ base) replied)
  answer-Asked base reply (err e) s' h replies revoked = (reply, h, revoked e refl)

module _ {W : Type 0} (ports : Ports W) where
  pub refresh_stored-Asked :
      (token : Text) (config : TokenClientConfig) (s : W × List Event)
      → let m = refresh_stored (journal ports) token config s in Asked s.1 m.0 m.1
  unfolding refresh_stored
  refresh_stored-Asked token config s =
      go (ports.refresh (refresh_parameters token config) s.0).0
        (logged (ports.refresh (refresh_parameters token config)) refreshed s).1
        (ports.clock (ports.refresh (refresh_parameters token config) s.0).1) refl
    where
      go :
          (reply : Result TokenTransportError TokenResponse) (s' : W × List Event) (now : ℕ)
          → s'.1 ≡ refreshed reply ∷ s.1
          → Asked s.1 (refresh_access_token_with_scope_outcome token config (λ _. reply) now) s'
      go reply s' now h =
          answer-Asked s.1 reply
            (refresh_access_token_with_scope_outcome token config (λ _. reply) now) s' h
            (λ outcome. outcome_response token config now reply outcome)
            (answer_revoked token config now reply)
