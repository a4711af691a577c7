-- ===== src/Broker/Core.antt =====
-- adapters/token-broker-core/src/broker.rs: the broker's configuration, its ports and its state.
-- The transport, the token store and the clocks are ports over a world that each call may change;
-- time passes in such calls. The URL parser is a parameter.
pub mod Bounds
pub mod Guarded
pub mod Pending
pub mod Restores
pub mod Begin
pub mod Complete
pub mod Refresh
pub mod Revoke
use tersa_app.Prelude.{
  ℕ, ◌-◌, ◌*◌, ◌/◌, ◌^◌, Bool, true, false, not, ◌&&◌, ◌||◌, Option, none, some, List, [], ◌∷◌,
  is_empty, ltb, leb, if◌then◌else◌,
}
use tersa_app.Prelude.Tests.{◌==◌}
use tersa_app.Prelude.Result.{Result, ok, err, map_err}
use tersa_app.Prelude.Action.{Action, pure, raise, lift, ◌>>=◌, on_result}
use tersa_app.Prelude.Text.{Text, codes, len, text_eq, trim}
use tersa_app.Application.OAuth.Urls.{Url}
use tersa_app.Application.Token.{
  TokenTransportError, TokenError, TokenClientConfig, new_client_config, TokenResponse,
  TokenSuccess,
}
use tersa_app.Application.OAuth.{
  OAuthError, invalid_configuration, entropy_unavailable, missing_parameter, duplicate_parameter,
  conflicting_callback, provider_rejected, insufficient_scope, redirect_mismatch, state_mismatch,
  expired, not_expired, already_consumed,
}
use tersa_app.Broker.{BrokerError}
use tersa_app.Broker.Handles.{new_subject}
use tersa_app.Broker.Permits.{SubjectPermits, claim_permit, drop_permit}
use tersa_app.Broker.Registry.{SessionRegistry}

abbrev pub max_access_token_len : ℕ
max_access_token_len = 4096

abbrev pub max_refresh_token_len : ℕ
max_refresh_token_len = 1024

-- 24 hours
abbrev pub max_expires_in_secs : ℕ
max_expires_in_secs = 86400

abbrev pub nanos_per_second : ℕ
nanos_per_second = 1_000_000_000

-- one hour
abbrev pub max_session_ttl : ℕ
max_session_ttl = 3600 * nanos_per_second

abbrev pub identity_freshness_skew_secs : ℕ
identity_freshness_skew_secs = 120

pub data RefreshTokenStoreError : Type 0 where
  unavailable : RefreshTokenStoreError
  invalid : RefreshTokenStoreError

-- `TokenTransport`, `RefreshTokenStore`, `MonotonicClock` and `WallClock`
pub record Ports (W : Type 0) : Type 0 where
  pub exchange : List (Text × Text) → Action W TokenTransportError TokenResponse
  pub refresh : List (Text × Text) → Action W TokenTransportError TokenResponse
  pub revoke : Text → Action W TokenTransportError (Unit {0})
  pub store : Text → Text → Action W RefreshTokenStoreError (Unit {0})
  pub load : Text → Action W RefreshTokenStoreError (Option Text)
  pub delete : Text → Action W RefreshTokenStoreError (Unit {0})
  pub clock : W → ℕ
  pub wall_clock : W → ℕ

-- the configuration of a `BrokerCore`
pub record BrokerConfig : Type 0 where
  pub client_id : Text
  pub client_secret : Option Text
  pub session_ttl : ℕ

-- the state of a `BrokerCore`, with the world of its ports
pub record BrokerCore (W : Type 0) : Type 0 where
  pub world : W
  pub registry : SessionRegistry
  pub permits : SubjectPermits

abbrev is_blank : Option Text → Bool
is_blank none = false
is_blank (some secret) = is_empty (trim secret)

-- `BrokerCore::new`
unfoldable pub new_broker : Text → Option Text → ℕ → Result BrokerError BrokerConfig
new_broker client_id client_secret session_ttl =
    if is_empty (trim client_id)
      || session_ttl == 0
      || ltb max_session_ttl session_ttl
      || is_blank client_secret
    then err BrokerError.invalid_configuration
    else ok
        (record { client_id = client_id; client_secret = client_secret; session_ttl = session_ttl })

pub record BrokerToken : Type 0 where
  pub access_token : Text
  pub subject : Text
  pub expires_in_seconds : ℕ

unfoldable pub map_oauth_error : OAuthError → BrokerError
map_oauth_error invalid_configuration = BrokerError.invalid_configuration
map_oauth_error entropy_unavailable = BrokerError.unavailable
map_oauth_error (missing_parameter name) = BrokerError.invalid_input
map_oauth_error duplicate_parameter = BrokerError.invalid_input
map_oauth_error conflicting_callback = BrokerError.invalid_input
map_oauth_error provider_rejected = BrokerError.provider_rejected
map_oauth_error insufficient_scope = BrokerError.insufficient_scope
map_oauth_error redirect_mismatch = BrokerError.invalid_input
map_oauth_error state_mismatch = BrokerError.invalid_input
map_oauth_error expired = BrokerError.session_unknown
map_oauth_error not_expired = BrokerError.unavailable
map_oauth_error already_consumed = BrokerError.session_unknown

unfoldable pub map_token_error : TokenError → BrokerError
map_token_error TokenError.invalid_configuration = BrokerError.invalid_configuration
map_token_error TokenError.transport = BrokerError.transport
map_token_error TokenError.provider_rejected = BrokerError.provider_rejected
map_token_error TokenError.authorization_code_rejected = BrokerError.authorization_code_rejected
map_token_error TokenError.malformed_response = BrokerError.malformed_response
map_token_error TokenError.insufficient_scope = BrokerError.insufficient_scope
map_token_error TokenError.consent_revoked = BrokerError.consent_revoked
map_token_error TokenError.identity_unverified = BrokerError.identity_unverified

unfoldable pub token_client_config : BrokerConfig → Url → Result BrokerError TokenClientConfig
unfolding new_client_config
token_client_config config redirect =
    map_err (λ _. BrokerError.invalid_configuration)
      (new_client_config config.client_id redirect config.client_secret)

-- a refresh token that may be stored or revoked
unfoldable pub is_well_shaped : Text → Bool
is_well_shaped token = not (is_empty token || ltb max_refresh_token_len (len token))

-- `broker_token`, at the time `now`
unfoldable pub broker_token : TokenSuccess → ℕ → Result BrokerError BrokerToken
broker_token success now =
    let expires_in_seconds = (success.access_expires_at - now) / nanos_per_second in
    if ltb max_access_token_len (len success.access_token)
    then err BrokerError.malformed_response
    else if expires_in_seconds == 0 || ltb max_expires_in_secs expires_in_seconds
    then err BrokerError.malformed_response
    else ok (record {
      access_token = success.access_token;
      subject = success.subject;
      expires_in_seconds = expires_in_seconds;
    })

module _ {W : Type 0} where
  -- a call of a port, on the broker's world
  abbrev pub on_world : {A : Type 0} → Action W BrokerError A → Action (BrokerCore W) BrokerError A
  on_world m s = let (r, w) = m s.world in (r, record s { world = w })

  -- a call whose error is mapped
  abbrev pub or_error : {E A : Type 0} → (E → BrokerError) → Action W E A → Action W BrokerError A
  or_error f m w = let (r, w') = m w in (map_err f r, w')

  -- `let _permit = self.permits.claim(…)?`, whose guard drops at the end
  abbrev pub under_permit :
      {A : Type 0}
      → Text
      → Action (BrokerCore W) BrokerError A
      → Result BrokerError (Unit {0}) × SubjectPermits
      → Action (BrokerCore W) BrokerError A
  under_permit subject body (err e, permits) s = (err e, record s { permits = permits })
  under_permit subject body (ok _, permits) s =
      let (r, s') = body (record s { permits = permits }) in
      (r, record s' { permits = drop_permit subject s'.permits })

  unfoldable pub with_permit :
      {A : Type 0}
      → Text
      → Action (BrokerCore W) BrokerError A
      → Action (BrokerCore W) BrokerError A
  unfolding claim_permit drop_permit
  with_permit subject body s = under_permit subject body (claim_permit subject s.permits) s

  -- `let subject = ValidatedSubject::new(…)?`, and the rest under its permit
  unfoldable pub for_subject :
      {A : Type 0} → Text → (Text → Action W BrokerError A) → Action (BrokerCore W) BrokerError A
  unfolding with_permit new_subject
  for_subject account_subject body = lift (new_subject account_subject) >>= λ subject.
      with_permit subject (on_world (body subject))
