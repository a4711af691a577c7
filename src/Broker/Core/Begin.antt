-- ===== src/Broker/Core/Begin.antt =====
-- adapters/token-broker-core/src/broker.rs: `begin_authorization`. What the clock, the entropy
-- source and the random generator answer are arguments, as is the URL parser.
use tersa_app.Prelude.{
  ℕ, Bool, true, false, not, ◌&&◌, ◌||◌, Option, none, some, List, [], ◌∷◌, is_empty, ltb, leb,
  if◌then◌else◌,
}
use tersa_app.Prelude.Result
use tersa_app.Prelude.Result.{Result, ok, err, map_err, ok_or}
use tersa_app.Prelude.Text.{Text, codes, len, text_eq}
use tersa_app.Application.OAuth.Urls.{Url, is_given}
use tersa_app.Application.OAuth.{
  AuthorizationConfig, AuthorizationUrl, AuthorizationSession, new_config, prepare_with_secrets,
}
use tersa_app.Broker.{BrokerError}
use tersa_app.Broker.Registry.{SessionRegistry, insert}
use tersa_app.Broker.Core.{BrokerConfig, map_oauth_error, token_client_config}

abbrev pub loopback_redirect_prefix : Text
loopback_redirect_prefix = codes "http://127.0.0.1:"

abbrev pub min_loopback_port : ℕ
min_loopback_port = 1024

abbrev pub max_redirect_len : ℕ
max_redirect_len = 256

-- `starts_with`
unfoldable pub starts_with : Text → Text → Bool
starts_with text [] = true
starts_with [] (p ∷ prefix) = false
starts_with (c ∷ text) (p ∷ prefix) = text_eq (c ∷ []) (p ∷ []) && starts_with text prefix

abbrev pub is_text : Text → Option Text → Bool
is_text expected none = false
is_text expected (some t) = text_eq t expected

abbrev pub is_port_from : ℕ → Option ℕ → Bool
is_port_from least none = false
is_port_from least (some port) = leb least port

unfoldable pub is_exact_root_loopback : Url → Bool
is_exact_root_loopback url =
    text_eq url.scheme (codes "http")
    && is_text (codes "127.0.0.1") url.host_str
    && is_port_from min_loopback_port url.port
    && text_eq url.path (codes "/")
    && is_empty url.username
    && not (is_given url.password)
    && not (is_given url.query)
    && not (is_given url.fragment)

abbrev pub exact_root_loopback : Option Url → Result BrokerError Url
exact_root_loopback none = err BrokerError.invalid_input
exact_root_loopback (some url) =
    if is_exact_root_loopback url then ok url else err BrokerError.invalid_input

unfoldable pub parse_loopback_redirect : (Text → Option Url) → Text → Result BrokerError Url
unfolding starts_with is_exact_root_loopback
parse_loopback_redirect parse text =
    if ltb max_redirect_len (len text) || not (starts_with text loopback_redirect_prefix)
    then err BrokerError.invalid_input
    else exact_root_loopback (parse text)

-- what an authorization needs from outside: the random secrets, or their failure
pub record Readings : Type 0 where
  pub now : ℕ
  pub secrets : Option (List ℕ × List ℕ)
  pub handles : ℕ → Result BrokerError (List ℕ)
  pub expiry_clock : Text → ℕ

pub record PendingAuthorization : Type 0 where
  pub authorization_url : AuthorizationUrl
  pub session_handle : Text

infixl 5 ◌>>=?◌
abbrev ◌>>=?◌ :
    {A B : Type 0} → Result BrokerError A → (A → Result BrokerError B) → Result BrokerError B
m >>=? f = Result.◌>>=◌ m f

module _ (encode_base64 : List ℕ → Text) (sha256 : List ℕ → List ℕ)
    (parse : Text → Option Url) where
  -- `prepare_authorization`: without randomness it fails
  unfoldable pub prepare_authorization :
      Readings → AuthorizationConfig → Result BrokerError (AuthorizationUrl × AuthorizationSession)
  unfolding map_oauth_error prepare_with_secrets
  prepare_authorization readings config = elim readings.secrets [
    | none ↦ err BrokerError.unavailable
    | some secrets ↦
        map_err map_oauth_error
          (prepare_with_secrets encode_base64 sha256 readings.now config secrets.0 secrets.1)
  ]

  -- what is prepared before the registry is touched
  unfoldable pub prepared :
      BrokerConfig → Readings → Text → Result BrokerError (AuthorizationUrl × AuthorizationSession)
  unfolding parse_loopback_redirect new_config token_client_config prepare_authorization
  prepared config readings redirect_uri =
      parse_loopback_redirect parse redirect_uri >>=? λ redirect.
      map_err (λ _. BrokerError.invalid_configuration)
        (new_config config.client_id redirect config.session_ttl)
      >>=? λ authorization_config. token_client_config config redirect >>=? λ _.
          prepare_authorization readings authorization_config

  abbrev pub register :
      Readings
      → Result BrokerError (AuthorizationUrl × AuthorizationSession)
      → SessionRegistry
      → Result BrokerError PendingAuthorization × SessionRegistry
  register readings (err e) registry = (err e, registry)
  register readings (ok (url, session)) registry =
      let (r, registry') =
        insert encode_base64 readings.handles session readings.expiry_clock registry in
      (
        Result.◌>>=◌ r (λ handle. ok (record { authorization_url = url; session_handle = handle })),
        registry',
      )

  unfoldable pub begin_authorization :
      BrokerConfig
      → Readings
      → Text
      → SessionRegistry
      → Result BrokerError PendingAuthorization × SessionRegistry
  unfolding prepared insert
  begin_authorization config readings redirect_uri registry =
      register readings (prepared config readings redirect_uri) registry
