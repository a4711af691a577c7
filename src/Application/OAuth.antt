-- ===== src/Application/OAuth.antt =====
-- crates/application/src/oauth.rs: the one-shot authorization session. The URL parser, base64 and
-- SHA-256 are third-party code: a URL is what the parser's accessors return, the other two are
-- parameters. A duration is its number of nanoseconds, and the clock's answer is an argument.
pub mod Urls
pub mod Session
pub mod Callback
use tersa_app.Prelude.{
  ℕ, ◌+◌, ◌*◌, ◌^◌, Bool, true, false, not, ◌&&◌, ◌||◌, Option, none, some, List, [], ◌∷◌, any,
  length, is_empty, ltb, leb, if◌then◌else◌,
}
use tersa_app.Prelude.Tests.{◌==◌}
use tersa_app.Prelude.Result
use tersa_app.Prelude.Result.{Result, ok, err, ok_or, is_err, map_err}
use tersa_app.Prelude.Text.{Text, codes, bytes, text_eq, trim}
use tersa_app.Application.OAuth.Urls.{Url, before_query, lookup, has_key, words, is_given}

abbrev pub gmail_readonly_scope : Text
gmail_readonly_scope = codes "https://www.googleapis.com/auth/gmail.readonly"

abbrev pub requested_scope : Text
requested_scope = codes "openid https://www.googleapis.com/auth/gmail.readonly"

abbrev pub google_authorization_endpoint : Text
google_authorization_endpoint = codes "https://accounts.google.com/o/oauth2/v2/auth"

abbrev pub secret_bytes : ℕ
secret_bytes = 32

pub data OAuthError : Type 0 where
  invalid_configuration : OAuthError
  entropy_unavailable : OAuthError
  missing_parameter : Text → OAuthError
  duplicate_parameter : OAuthError
  conflicting_callback : OAuthError
  provider_rejected : OAuthError
  insufficient_scope : OAuthError
  redirect_mismatch : OAuthError
  state_mismatch : OAuthError
  expired : OAuthError
  not_expired : OAuthError
  already_consumed : OAuthError

pub record AuthorizationConfig : Type 0 where
  pub client_id : Text
  pub redirect_uri : Url
  pub lifetime : ℕ

-- `AuthorizationConfig::new`
unfoldable pub new_config : Text → Url → ℕ → Result OAuthError AuthorizationConfig
new_config client_id redirect_uri lifetime =
    let has_credentials = not (is_empty redirect_uri.username) || is_given redirect_uri.password in
    if is_empty (trim client_id)
      || lifetime == 0
      || has_credentials
      || is_given redirect_uri.query
      || is_given redirect_uri.fragment
    then err invalid_configuration
    else ok (record { client_id = client_id; redirect_uri = redirect_uri; lifetime = lifetime })

-- `AuthorizationSession`, without its clock
pub record AuthorizationSession : Type 0 where
  pub expires_at : ℕ
  pub redirect_uri : Url
  pub state : List ℕ
  pub verifier : Text
  pub consumed : Bool

pub record AuthorizationGrant : Type 0 where
  pub code : Text
  pub verifier : Text

-- the loop of `unique_query_parameters`, with the parameters inserted so far
unfoldable pub insert_unique :
    List (Text × Text) → List (Text × Text) → Result OAuthError (List (Text × Text))
unfolding has_key
insert_unique parameters [] = ok parameters
insert_unique parameters ((name, value) ∷ pairs) =
    let rest = insert_unique ((name, value) ∷ parameters) pairs in
    if has_key name parameters then err duplicate_parameter else rest

unfoldable pub unique_query_parameters : Url → Result OAuthError (List (Text × Text))
unfolding insert_unique
unique_query_parameters callback = insert_unique [] callback.query_pairs

abbrev nonempty : Option Text → Option Text
nonempty none = none
nonempty (some value) = if is_empty value then none else some value

unfoldable pub required_parameter : List (Text × Text) → Text → Result OAuthError Text
unfolding lookup
required_parameter parameters name =
    ok_or (missing_parameter name) (nonempty (lookup name parameters))

unfoldable pub validate_redirect : AuthorizationSession → Url → Result OAuthError (Unit {0})
unfolding before_query
validate_redirect s callback =
    if is_given callback.fragment
      || not (text_eq (before_query callback.as_str) s.redirect_uri.as_str)
    then err redirect_mismatch
    else ok tt

-- a scope that was returned must hold the Gmail scope
unfoldable pub scope_missing : Option Text → Bool
unfolding words
scope_missing none = false
scope_missing (some scope) =
    not (any (λ granted. text_eq granted gmail_readonly_scope) (words scope))

-- `match (code, provider_error) { … }`
abbrev pub callback_outcome :
    AuthorizationSession
    → List (Text × Text)
    → Option Text
    → Option Text
    → Result OAuthError AuthorizationGrant
callback_outcome s parameters (some code) (some error) = err conflicting_callback
callback_outcome s parameters none (some error) = err provider_rejected
callback_outcome s parameters none none = err (missing_parameter (codes "code"))
callback_outcome s parameters (some code) none =
    if is_empty code
    then err (missing_parameter (codes "code"))
    else if scope_missing (lookup (codes "scope") parameters)
    then err insufficient_scope
    else ok (record { code = code; verifier = s.verifier })

infixl 5 ◌>>=?◌
abbrev ◌>>=?◌ :
    {A B : Type 0} → Result OAuthError A → (A → Result OAuthError B) → Result OAuthError B
m >>=? f = Result.◌>>=◌ m f

-- `validate_callback`, at the time `now`
unfoldable pub validate_callback :
    ℕ → AuthorizationSession → Url → Result OAuthError AuthorizationGrant
unfolding validate_redirect unique_query_parameters required_parameter scope_missing
validate_callback now s callback =
    if leb s.expires_at now
    then err expired
    else (validate_redirect s callback >>=? λ _. unique_query_parameters callback >>=? λ parameters.
        required_parameter parameters (codes "state") >>=? λ state.
        if not (text_eq s.state (bytes state))
        then err state_mismatch
        else callback_outcome s parameters (lookup (codes "code") parameters)
            (lookup (codes "error") parameters))

unfoldable pub consume : AuthorizationSession → Result OAuthError (Unit {0}) × AuthorizationSession
consume s = if s.consumed then (err already_consumed, s) else (ok tt, record s { consumed = true })

-- `state.zeroize()` and `verifier.zeroize()` leave an empty vector and an empty text
abbrev pub zeroize_state : AuthorizationSession → AuthorizationSession
zeroize_state s = record s { state = [] }

abbrev pub zeroize_verifier : AuthorizationSession → AuthorizationSession
zeroize_verifier s = record s { verifier = [] }

-- the end of `finish`: a grant has taken the verifier, and an error wipes it
abbrev pub settle :
    Result OAuthError AuthorizationGrant → AuthorizationSession → AuthorizationSession
settle (ok grant) s = record (zeroize_state s) { verifier = [] }
settle (err e) s = zeroize_verifier (zeroize_state s)

unfoldable pub finish :
    ℕ → Url → AuthorizationSession → Result OAuthError AuthorizationGrant × AuthorizationSession
unfolding consume validate_callback
finish now callback s =
    let (r, t) = consume s in
    elim r [
      | err e ↦ (err e, t)
      | ok _ ↦ (validate_callback now t callback, settle (validate_callback now t callback) t)
    ]

unfoldable pub cancel : AuthorizationSession → Result OAuthError (Unit {0}) × AuthorizationSession
unfolding consume
cancel s =
    let (r, t) = consume s in
    elim r [ err e ↦ (err e, t) | ok _ ↦ (ok tt, zeroize_verifier (zeroize_state t)) ]

unfoldable pub expire :
    ℕ → AuthorizationSession → Result OAuthError (Unit {0}) × AuthorizationSession
unfolding cancel
expire now s =
    if s.consumed
    then (err already_consumed, s)
    else if ltb now s.expires_at
    then (err not_expired, s)
    else cancel s

-- the URL for the browser: the endpoint and the pairs appended to its query
pub record AuthorizationUrl : Type 0 where
  pub endpoint : Text
  pub query_pairs : List (Text × Text)

module _ (encode_base64 : List ℕ → Text) (sha256 : List ℕ → List ℕ) where
  unfoldable pub pkce_challenge : Text → Text
  pkce_challenge verifier = encode_base64 (sha256 (bytes verifier))

  unfoldable pub authorization_url : AuthorizationConfig → Text → Text → AuthorizationUrl
  authorization_url config state challenge = record {
    endpoint = google_authorization_endpoint;
    query_pairs =
        (codes "response_type", codes "code")
        ∷ (codes "client_id", config.client_id)
        ∷ (codes "redirect_uri", config.redirect_uri.as_str)
        ∷ (codes "scope", requested_scope)
        ∷ (codes "state", state)
        ∷ (codes "code_challenge", challenge)
        ∷ (codes "code_challenge_method", codes "S256")
        ∷ (codes "access_type", codes "offline")
        ∷ (codes "prompt", codes "consent")
        ∷ [];
  }

  -- `prepare_with_secrets`, at the time `now`; the largest duration has 2^64 - 1 seconds
  unfoldable pub prepare_with_secrets :
      ℕ
      → AuthorizationConfig
      → List ℕ
      → List ℕ
      → Result OAuthError (AuthorizationUrl × AuthorizationSession)
  unfolding pkce_challenge authorization_url
  prepare_with_secrets now config verifier_bytes state_bytes =
      if not (length verifier_bytes == secret_bytes) || not (length state_bytes == secret_bytes)
      then err invalid_configuration
      else if not (ltb (now + config.lifetime) (2 ^ 64 * 1_000_000_000))
      then err invalid_configuration
      else ok (
        authorization_url config (encode_base64 state_bytes)
            (pkce_challenge (encode_base64 verifier_bytes)),
        record {
          expires_at = now + config.lifetime;
          redirect_uri = config.redirect_uri;
          state = bytes (encode_base64 state_bytes);
          verifier = encode_base64 verifier_bytes;
          consumed = false;
        },
      )
