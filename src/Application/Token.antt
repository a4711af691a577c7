-- ===== src/Application/Token.antt =====
-- crates/application/src/token.rs: the client of the token endpoint. The transport is a parameter,
-- which answers a request with a parsed response or an error; a duration is its nanoseconds.
pub mod Identity
pub mod Freshness
use tersa_app.Prelude.{
  ℕ, ◌+◌, ◌-◌, ◌*◌, ◌^◌, min, Bool, true, false, not, ◌&&◌, ◌||◌, Option, none, some, List, [], ◌∷◌,
  ◌++◌, any, all, length, is_empty, in_range, ltb, leb, if◌then◌else◌,
}
use tersa_app.Prelude.Tests.{◌==◌}
use tersa_app.Prelude.Result
use tersa_app.Prelude.Result.{Result, ok, err, map_err}
use tersa_app.Prelude.Text.{Text, codes, bytes, len, text_eq, trim}
use tersa_app.Application.OAuth.{AuthorizationGrant}
use tersa_app.Application.OAuth.Urls.{Url, is_given}

pub data TokenTransportError : Type 0 where
  transport : TokenTransportError
  invalid_grant : TokenTransportError
  invalid_token : TokenTransportError
  provider_rejected : TokenTransportError
  malformed_response : TokenTransportError

pub data TokenError : Type 0 where
  invalid_configuration : TokenError
  transport : TokenError
  provider_rejected : TokenError
  authorization_code_rejected : TokenError
  malformed_response : TokenError
  insufficient_scope : TokenError
  consent_revoked : TokenError
  identity_unverified : TokenError

pub record TokenClientConfig : Type 0 where
  pub client_id : Text
  pub redirect_uri : Url
  pub client_secret : Option Text

abbrev blank_secret : Option Text → Bool
blank_secret none = false
blank_secret (some secret) = is_empty (trim secret)

-- `TokenClientConfig::new`
unfoldable pub new_client_config : Text → Url → Option Text → Result TokenError TokenClientConfig
new_client_config client_id redirect_uri client_secret =
    let has_credentials = not (is_empty redirect_uri.username) || is_given redirect_uri.password in
    if is_empty (trim client_id)
      || has_credentials
      || is_given redirect_uri.query
      || is_given redirect_uri.fragment
      || blank_secret client_secret
    then err TokenError.invalid_configuration
    else ok (record {
      client_id = client_id;
      redirect_uri = redirect_uri;
      client_secret = client_secret;
    })

abbrev secret_parameter : Option Text → List (Text × Text)
secret_parameter none = []
secret_parameter (some secret) = (codes "client_secret", secret) ∷ []

-- `ExchangeRequest::new` and its parameters
unfoldable pub exchange_parameters : AuthorizationGrant → TokenClientConfig → List (Text × Text)
exchange_parameters grant config =
    ((codes "grant_type", codes "authorization_code")
      ∷ (codes "code", grant.code)
      ∷ (codes "code_verifier", grant.verifier)
      ∷ (codes "client_id", config.client_id)
      ∷ (codes "redirect_uri", config.redirect_uri.as_str)
      ∷ [])
    ++ secret_parameter config.client_secret

-- `RefreshRequest::new` and its parameters
unfoldable pub refresh_parameters : Text → TokenClientConfig → List (Text × Text)
refresh_parameters refresh_token config =
    ((codes "grant_type", codes "refresh_token")
      ∷ (codes "refresh_token", refresh_token)
      ∷ (codes "client_id", config.client_id)
      ∷ [])
    ++ secret_parameter config.client_secret

pub record IdTokenClaims : Type 0 where
  pub subject : Text
  pub audiences : List Text
  pub issuer : Text
  pub authorized_party : Option Text
  pub issued_at : ℕ
  pub expires_at : ℕ

pub record IdentityExpiry : Type 0 where
  pub issued_at : ℕ
  pub expires_at : ℕ

-- `u64::saturating_add`
abbrev pub saturating_add : ℕ → ℕ → ℕ
saturating_add a b = min (a + b) (2 ^ 64 - 1)

-- `IdentityExpiry::validate_fresh`
unfoldable pub validate_fresh : IdentityExpiry → ℕ → ℕ → Result TokenError (Unit {0})
validate_fresh expiry now skew_secs =
    if leb (saturating_add expiry.expires_at skew_secs) now
    then err TokenError.identity_unverified
    else if ltb (saturating_add now skew_secs) expiry.issued_at
    then err TokenError.identity_unverified
    else ok tt

abbrev pub google_issuers : List Text
google_issuers = codes "accounts.google.com" ∷ codes "https://accounts.google.com" ∷ []

abbrev pub max_account_subject_len : ℕ
max_account_subject_len = 255

pub record TokenResponse : Type 0 where
  pub access_token : Text
  pub expires_in : ℕ
  pub rotated_refresh_token : Option Text
  pub id_token_claims : Option IdTokenClaims
  pub gmail_read_granted : Bool

pub record TokenSuccess : Type 0 where
  pub access_token : Text
  pub access_expires_at : ℕ
  pub rotated_refresh_token : Option Text
  pub subject : Text
  pub identity_expiry : IdentityExpiry
  pub gmail_read_granted : Bool

pub data TokenScopeOutcome : Type 0 where
  granted : TokenSuccess → TokenScopeOutcome
  under_scoped : Text → Option Text → TokenScopeOutcome

abbrev pub single_exact_audience : Text → List Text → Bool
single_exact_audience client_id (audience ∷ []) = text_eq audience client_id
single_exact_audience client_id _ = false

abbrev pub names_client : Text → Option Text → Bool
names_client client_id none = false
names_client client_id (some party) = text_eq party client_id

-- what follows the claims in `validate_account_subject`
unfoldable pub validate_claims :
    IdTokenClaims → TokenClientConfig → Result TokenError (Text × IdentityExpiry)
validate_claims claims config =
    let multi_audience_authorized =
      any (λ audience. text_eq audience config.client_id) claims.audiences
      && names_client config.client_id claims.authorized_party in
    let subject = trim claims.subject in
    if not (single_exact_audience config.client_id claims.audiences || multi_audience_authorized)
    then err TokenError.identity_unverified
    else if not (any (λ issuer. text_eq issuer claims.issuer) google_issuers)
    then err TokenError.identity_unverified
    else if is_empty subject || ltb max_account_subject_len (len subject)
    then err TokenError.identity_unverified
    else ok (subject, record { issued_at = claims.issued_at; expires_at = claims.expires_at })

unfoldable pub validate_account_subject :
    Option IdTokenClaims → TokenClientConfig → Result TokenError (Text × IdentityExpiry)
unfolding validate_claims
validate_account_subject none config = err TokenError.identity_unverified
validate_account_subject (some claims) config = validate_claims claims config

-- the end of `TokenSuccess::from_parts`
abbrev pub with_identity :
    TokenResponse
    → ℕ
    → Result TokenError (Text × IdentityExpiry)
    → Result TokenError TokenScopeOutcome
with_identity response now (err e) = err e
with_identity response now (ok (subject, identity_expiry)) = ok (
    granted (record {
      access_token = response.access_token;
      access_expires_at = now + response.expires_in;
      rotated_refresh_token = response.rotated_refresh_token;
      subject = subject;
      identity_expiry = identity_expiry;
      gmail_read_granted = true;
    }))

-- `TokenSuccess::from_parts`; the largest duration has 2^64 - 1 seconds
unfoldable pub from_parts :
    TokenResponse → ℕ → TokenClientConfig → Result TokenError TokenScopeOutcome
unfolding validate_account_subject
from_parts response now config =
    if is_empty response.access_token
    then err TokenError.malformed_response
    else if not (ltb (now + response.expires_in) (2 ^ 64 * 1_000_000_000))
    then err TokenError.malformed_response
    else with_identity response now (validate_account_subject response.id_token_claims config)

unfoldable pub scope_outcome_from_response :
    TokenResponse → ℕ → TokenClientConfig → Result TokenError TokenScopeOutcome
unfolding from_parts
scope_outcome_from_response response now config =
    if is_empty response.access_token
    then err TokenError.malformed_response
    else if not response.gmail_read_granted
    then ok (under_scoped response.access_token response.rotated_refresh_token)
    else from_parts response now config

unfoldable pub map_transport_error : TokenTransportError → TokenError
map_transport_error TokenTransportError.transport = TokenError.transport
map_transport_error TokenTransportError.invalid_grant = TokenError.consent_revoked
map_transport_error TokenTransportError.invalid_token = TokenError.provider_rejected
map_transport_error TokenTransportError.provider_rejected = TokenError.provider_rejected
map_transport_error TokenTransportError.malformed_response = TokenError.malformed_response

unfoldable pub map_exchange_transport_error : TokenTransportError → TokenError
unfolding map_transport_error
map_exchange_transport_error TokenTransportError.invalid_grant =
    TokenError.authorization_code_rejected
map_exchange_transport_error other = map_transport_error other

-- `exchange` and `refresh` of the transport
abbrev pub Endpoint : Type 0
Endpoint = List (Text × Text) → Result TokenTransportError TokenResponse

unfoldable pub exchange_grant_with_scope_outcome :
    AuthorizationGrant → TokenClientConfig → Endpoint → ℕ → Result TokenError TokenScopeOutcome
unfolding scope_outcome_from_response map_exchange_transport_error exchange_parameters
exchange_grant_with_scope_outcome grant config exchange now =
    Result.◌>>=◌
      (map_err map_exchange_transport_error (exchange (exchange_parameters grant config)))
      (λ response. scope_outcome_from_response response now config)

unfoldable pub refresh_access_token_with_scope_outcome :
    Text → TokenClientConfig → Endpoint → ℕ → Result TokenError TokenScopeOutcome
unfolding scope_outcome_from_response map_transport_error refresh_parameters
refresh_access_token_with_scope_outcome refresh_token config refresh now =
    Result.◌>>=◌ (map_err map_transport_error (refresh (refresh_parameters refresh_token config)))
      (λ response. scope_outcome_from_response response now config)

abbrev pub require_scope : TokenScopeOutcome → Result TokenError TokenSuccess
require_scope (granted success) = ok success
require_scope (under_scoped access_token rotated) = err TokenError.insufficient_scope

unfoldable pub exchange_grant :
    AuthorizationGrant → TokenClientConfig → Endpoint → ℕ → Result TokenError TokenSuccess
unfolding exchange_grant_with_scope_outcome
exchange_grant grant config exchange now =
    Result.◌>>=◌ (exchange_grant_with_scope_outcome grant config exchange now) require_scope

unfoldable pub refresh_access_token :
    Text → TokenClientConfig → Endpoint → ℕ → Result TokenError TokenSuccess
unfolding refresh_access_token_with_scope_outcome
refresh_access_token refresh_token config refresh now =
    Result.◌>>=◌ (refresh_access_token_with_scope_outcome refresh_token config refresh now)
      require_scope
