-- ===== src/Application/Token/Identity.antt =====
-- What a token success has verified, and which failures count as a revoked consent.
use tersa_app.Prelude.{
  ℕ, ◌≤◌, ◌≡◌, ◌≢◌, ◌↔◌, ◌||◌, refl, true, false, some, List, [], ◌∷◌, any, is_empty, arith,
  Option-cases, inl, inr,
}
use tersa_app.Prelude.Result
use tersa_app.Prelude.Result.{Result, ok, err, map_err}
use tersa_app.Prelude.Text.{Text, len, text_eq, trim}
use tersa_app.Application.OAuth.{AuthorizationGrant}
use tersa_app.Application.Token.{
  TokenTransportError, TokenError, TokenClientConfig, IdTokenClaims, TokenResponse, TokenSuccess,
  TokenScopeOutcome, granted, under_scoped, single_exact_audience, names_client, validate_claims,
  with_identity, scope_outcome_from_response, map_transport_error, map_exchange_transport_error,
  Endpoint, exchange_grant_with_scope_outcome, refresh_access_token_with_scope_outcome,
  require_scope, exchange_grant, refresh_access_token, refresh_parameters, exchange_parameters,
  google_issuers,
}

-- what a response says that a success is made of
pub record IsVerified (response : TokenResponse) (config : TokenClientConfig)
    (success : TokenSuccess) : Type 0 where
  pub scoped : response.gmail_read_granted ≡ true
  pub claims : IdTokenClaims
  pub claimed : response.id_token_claims ≡ some claims
  pub audience : any (λ audience. text_eq audience config.client_id) claims.audiences ≡ true
  pub authorized :
      (single_exact_audience config.client_id claims.audiences
        || names_client config.client_id claims.authorized_party)
      ≡ true
  pub issuer : any (λ issuer. text_eq issuer claims.issuer) google_issuers ≡ true
  pub subject : success.subject ≡ trim claims.subject
  pub nonempty : is_empty success.subject ≡ false
  pub bounded : len success.subject ≤ 255
  pub token : success.access_token ≡ response.access_token
  pub token_nonempty : is_empty response.access_token ≡ false

single-any :
    (client_id : Text) (audiences : List Text)
    → single_exact_audience client_id audiences ≡ true
    → any (λ audience. text_eq audience client_id) audiences ≡ true
single-any client_id [] h = cc
single-any client_id (a ∷ []) h = ground arith
single-any client_id (a ∷ b ∷ audiences) h = cc

module _ (now : ℕ) (response : TokenResponse) (config : TokenClientConfig)
    (success : TokenSuccess) where
  claims-IsVerified :
      (claims : IdTokenClaims)
      → response.id_token_claims ≡ some claims
      → response.gmail_read_granted ≡ true
      → is_empty response.access_token ≡ false
      → with_identity response now (validate_claims claims config) ≡ ok (granted success)
      → IsVerified response config success
  unfolding validate_claims
  claims-IsVerified claims c g t h = record {
    scoped = g;
    claims = claims;
    claimed = c;
    audience = ground (arith, single-any config.client_id claims.audiences);
    authorized = ground arith;
    issuer = ground arith;
    subject = ground arith;
    nonempty = ground arith;
    bounded = ground arith;
    token = ground arith;
    token_nonempty = t;
  }

  response-IsVerified :
      scope_outcome_from_response response now config ≡ ok (granted success)
      → IsVerified response config success
  unfolding scope_outcome_from_response
  response-IsVerified h = elim (Option-cases response.id_token_claims) [
    | inl absent ↦ absurd (ground arith)
    | inr (claims, present) ↦
        claims-IsVerified claims present (ground arith) (ground arith) (ground arith)
  ]

granted-inverse :
    (r : Result TokenError TokenScopeOutcome) (success : TokenSuccess)
    → Result.◌>>=◌ r require_scope ≡ ok success
    → r ≡ ok (granted success)
granted-inverse (err e) success h = absurd (ground arith)
granted-inverse (ok (granted s)) success h = ground arith
granted-inverse (ok (under_scoped a t)) success h = absurd (ground arith)

module _ (config : TokenClientConfig) (now : ℕ) (success : TokenSuccess)
    (f : TokenTransportError → TokenError) where
  replied :
      (r : Result TokenTransportError TokenResponse)
      → Result.◌>>=◌ (map_err f r) (λ response. scope_outcome_from_response response now config)
        ≡ ok (granted success)
      → (response : TokenResponse) × (r ≡ ok response) × IsVerified response config success
  replied (err e) h = absurd (ground arith)
  replied (ok response) h = (response, refl, response-IsVerified now response config success h)

-- A refresh that succeeds had a response whose claims name this client as an audience, alone or
-- with it as the authorized party, have a Google issuer and a subject of 1 to 255 bytes once
-- trimmed, which is the subject returned; and the response granted the Gmail scope.
pub refresh_access_token_lem :
    (refresh_token : Text) (config : TokenClientConfig) (refresh : Endpoint) (now : ℕ)
    (success : TokenSuccess)
    → refresh_access_token refresh_token config refresh now ≡ ok success
    → (response : TokenResponse) × (refresh (refresh_parameters refresh_token config) ≡ ok response)
      × IsVerified response config success
unfolding refresh_access_token refresh_access_token_with_scope_outcome
refresh_access_token_lem refresh_token config refresh now success h =
    replied config now success map_transport_error
      (refresh (refresh_parameters refresh_token config)) (granted-inverse _ success h)

-- An exchange of a grant that succeeds had a response with the same verified claims and scope.
pub exchange_grant_lem :
    (grant : AuthorizationGrant) (config : TokenClientConfig) (exchange : Endpoint) (now : ℕ)
    (success : TokenSuccess)
    → exchange_grant grant config exchange now ≡ ok success
    → (response : TokenResponse) × (exchange (exchange_parameters grant config) ≡ ok response)
      × IsVerified response config success
unfolding exchange_grant exchange_grant_with_scope_outcome
exchange_grant_lem grant config exchange now success h =
    replied config now success map_exchange_transport_error
      (exchange (exchange_parameters grant config)) (granted-inverse _ success h)

claims_revoke_nothing :
    (response : TokenResponse) (now : ℕ) (config : TokenClientConfig)
    → Result.◌>>=◌ (scope_outcome_from_response response now config) require_scope
      ≢ err TokenError.consent_revoked
unfolding scope_outcome_from_response validate_claims
claims_revoke_nothing response now config h = elim (Option-cases response.id_token_claims) [
  | inl absent ↦ ground arith
  | inr (claims, present) ↦ ground arith
]

refresh_revoked :
    (config : TokenClientConfig) (now : ℕ) (r : Result TokenTransportError TokenResponse)
    → (Result.◌>>=◌
          (Result.◌>>=◌
            (map_err map_transport_error r)
            (λ response. scope_outcome_from_response response now config))
          require_scope
        ≡ err TokenError.consent_revoked)
      ↔ (r ≡ err TokenTransportError.invalid_grant)
unfolding map_transport_error
refresh_revoked config now (ok response) =
    (λ h. absurd (claims_revoke_nothing response now config h), λ h. absurd (ground arith))
refresh_revoked config now (err TokenTransportError.transport) =
    (λ h. absurd (ground arith), λ h. absurd (ground arith))
refresh_revoked config now (err TokenTransportError.invalid_grant) = (λ h. refl, λ h. refl)
refresh_revoked config now (err TokenTransportError.invalid_token) =
    (λ h. absurd (ground arith), λ h. absurd (ground arith))
refresh_revoked config now (err TokenTransportError.provider_rejected) =
    (λ h. absurd (ground arith), λ h. absurd (ground arith))
refresh_revoked config now (err TokenTransportError.malformed_response) =
    (λ h. absurd (ground arith), λ h. absurd (ground arith))

exchange_unrevoked :
    (config : TokenClientConfig) (now : ℕ) (r : Result TokenTransportError TokenResponse)
    → Result.◌>>=◌
        (Result.◌>>=◌
          (map_err map_exchange_transport_error r)
          (λ response. scope_outcome_from_response response now config))
        require_scope
      ≢ err TokenError.consent_revoked
unfolding map_exchange_transport_error
exchange_unrevoked config now (ok response) h = claims_revoke_nothing response now config h
exchange_unrevoked config now (err TokenTransportError.transport) h = ground arith
exchange_unrevoked config now (err TokenTransportError.invalid_grant) h = ground arith
exchange_unrevoked config now (err TokenTransportError.invalid_token) h = ground arith
exchange_unrevoked config now (err TokenTransportError.provider_rejected) h = ground arith
exchange_unrevoked config now (err TokenTransportError.malformed_response) h = ground arith

-- A refresh reports a revoked consent exactly when the endpoint answered `invalid_grant`, and an
-- exchange never reports one.
pub consent_revoked_iff :
    (refresh_token : Text) (grant : AuthorizationGrant) (config : TokenClientConfig)
    (endpoint : Endpoint) (now : ℕ)
    → ((refresh_access_token refresh_token config endpoint now ≡ err TokenError.consent_revoked) ↔ (
        endpoint (refresh_parameters refresh_token config) ≡ err TokenTransportError.invalid_grant))
      × (exchange_grant grant config endpoint now ≢ err TokenError.consent_revoked)
unfolding refresh_access_token refresh_access_token_with_scope_outcome exchange_grant
    exchange_grant_with_scope_outcome
consent_revoked_iff refresh_token grant config endpoint now = (
  refresh_revoked config now (endpoint (refresh_parameters refresh_token config)),
  exchange_unrevoked config now (endpoint (exchange_parameters grant config)),
)
