-- ===== src/Broker/Core/Pending.antt =====
-- What a pending authorization leaves in the registry.
use tersa_app.Prelude.{
  ℕ, ◌≡◌, ◌<◌, ◌+◌, ◌^◌, ◌*◌, refl, ap, sym, true, false, Option, none, some, List, arith,
  Option-cases, Bool-cases, ltb, not, ◌||◌, subst, ◌∙◌, inl, inr,
}
use tersa_app.Prelude.Result.{Result, ok, err, map_err, map_err-ok, >>=-ok}
use tersa_app.Prelude.Text.{Text, len}
use tersa_app.Application.OAuth.Urls.{Url}
use tersa_app.Application.OAuth.{
  AuthorizationUrl, AuthorizationSession, AuthorizationConfig, new_config, prepare_with_secrets,
}
use tersa_app.Broker.{BrokerError, session_unknown}
use tersa_app.Broker.Registry.{SessionRegistry, claim, insert}
use tersa_app.Broker.Registry.Allocation.{IsBounded}
use tersa_app.Broker.Registry.Claims.{claim-insert}
use tersa_app.Broker.Core.{BrokerConfig, map_oauth_error, token_client_config}
use tersa_app.Broker.Core.Begin.{
  starts_with, loopback_redirect_prefix, max_redirect_len, is_exact_root_loopback,
  exact_root_loopback, parse_loopback_redirect, Readings, PendingAuthorization,
  prepare_authorization, prepared, register, begin_authorization,
}

-- a session for the redirect at `text`, before its deadline
pub record IsPrepared (parse : Text → Option Url) (config : BrokerConfig) (now : ℕ) (text : Text)
    (session : AuthorizationSession) : Type 0 where
  pub redirect : parse text ≡ some session.redirect_uri
  pub loopback : is_exact_root_loopback session.redirect_uri ≡ true
  pub deadline : session.expires_at ≡ now + config.session_ttl
  pub representable : session.expires_at < 2 ^ 64 * 1_000_000_000
  pub unused : session.consumed ≡ false

exact_root_loopback_lem :
    (o : Option Url) (url : Url)
    → exact_root_loopback o ≡ ok url
    → (o ≡ some url) × (is_exact_root_loopback url ≡ true)
exact_root_loopback_lem none url h = absurd (ground arith)
exact_root_loopback_lem (some u) url h = elim (Bool-cases (is_exact_root_loopback u)) [
  | inl exact ↦
      let same : u ≡ url = ground arith in
      (ap some same, subst (λ x. is_exact_root_loopback x ≡ true) same exact)
  | inr inexact ↦ absurd (ground arith)
]

parse_loopback_redirect_lem :
    (parse : Text → Option Url) (text : Text) (url : Url)
    → parse_loopback_redirect parse text ≡ ok url
    → (parse text ≡ some url) × (is_exact_root_loopback url ≡ true)
unfolding parse_loopback_redirect
parse_loopback_redirect_lem parse text url h =
    elim (Bool-cases
      (ltb max_redirect_len (len text) || not (starts_with text loopback_redirect_prefix))) [
        | inl wrong ↦ absurd (ground arith)
        | inr right ↦ exact_root_loopback_lem (parse text) url (ground arith)
      ]

module _ (encode_base64 : List ℕ → Text) (sha256 : List ℕ → List ℕ) (parse : Text → Option Url)
    (config : BrokerConfig) (readings : Readings) (text : Text) where
  secrets_session :
      (c : AuthorizationConfig) (a b : List ℕ) (url' : AuthorizationUrl)
      (session : AuthorizationSession)
      → prepare_with_secrets encode_base64 sha256 readings.now c a b ≡ ok (url', session)
      → (session.redirect_uri ≡ c.redirect_uri)
        × (session.expires_at ≡ readings.now + c.lifetime)
        × (session.expires_at < 2 ^ 64 * 1_000_000_000)
        × (session.consumed ≡ false)
  unfolding prepare_with_secrets
  secrets_session c a b url' session h = (ground arith, ground arith, ground arith, ground arith)

  config_fields :
      (url : Url) (c : AuthorizationConfig)
      → new_config config.client_id url config.session_ttl ≡ ok c
      → (c.redirect_uri ≡ url) × (c.lifetime ≡ config.session_ttl)
  unfolding new_config
  config_fields url c h = (ground arith, ground arith)

  session_of :
      (url : Url) (c : AuthorizationConfig) (url' : AuthorizationUrl)
      (session : AuthorizationSession)
      → new_config config.client_id url config.session_ttl ≡ ok c
      → prepare_authorization encode_base64 sha256 parse readings c ≡ ok (url', session)
      → (session.redirect_uri ≡ url)
        × (session.expires_at ≡ readings.now + config.session_ttl)
        × (session.expires_at < 2 ^ 64 * 1_000_000_000)
        × (session.consumed ≡ false)
  unfolding prepare_authorization
  session_of url c url' session h p = elim (Option-cases readings.secrets) [
    | inl absent ↦ absurd (ground arith)
    | inr (secrets, present) ↦
        let (redirect, deadline, representable, unused) =
          secrets_session c secrets.0 secrets.1 url' session
            (map_err-ok map_oauth_error _ _ (ground arith)) in
        let (same, lifetime) = config_fields url c h in
        (redirect ∙ same, deadline ∙ ap (λ l. readings.now + l) lifetime, representable, unused)
  ]

  prepared-IsPrepared :
      (url' : AuthorizationUrl) (session : AuthorizationSession)
      → prepared encode_base64 sha256 parse config readings text ≡ ok (url', session)
      → IsPrepared parse config readings.now text session
  unfolding prepared
  prepared-IsPrepared url' session h =
      let (url, parsed, h1) = >>=-ok (parse_loopback_redirect parse text) _ (url', session) h in
      let (c, configured, h2) =
        >>=-ok
          (map_err (λ _. BrokerError.invalid_configuration)
            (new_config config.client_id url config.session_ttl))
          _ (url', session) h1 in
      let (t, checked, h3) = >>=-ok (token_client_config config url) _ (url', session) h2 in
      let (here, exact) = parse_loopback_redirect_lem parse text url parsed in
      let (same, deadline, representable, unused) =
        session_of url c url' session (map_err-ok _ _ c configured) h3 in
      record {
        redirect = here ∙ ap some (sym same);
        loopback = subst (λ u. is_exact_root_loopback u ≡ true) (sym same) exact;
        deadline = deadline;
        representable = representable;
        unused = unused;
      }

  -- From a registry of at most eight sessions under distinct handles, an authorization that is begun
  -- leaves one session under the handle it returns: for the parsed redirect, which is the exact root
  -- of the loopback host on an unprivileged port, unused, with the deadline a session lifetime after
  -- the time of the preparation; the handle can be claimed once.
  pub begin_authorization_lem :
      (registry : SessionRegistry) (pending : PendingAuthorization)
      → IsBounded registry
      → (begin_authorization encode_base64 sha256 parse config readings text registry).0
        ≡ ok pending
      → let registry' =
          (begin_authorization encode_base64 sha256 parse config readings text registry).1 in
        (session : AuthorizationSession) × IsPrepared parse config readings.now text session
        × ((claim pending.session_handle registry').0 ≡ ok session)
        × ((claim pending.session_handle (claim pending.session_handle registry').1).0
            ≡ err session_unknown)
  unfolding begin_authorization
  begin_authorization_lem registry pending bounded h =
      go (prepared encode_base64 sha256 parse config readings text) prepared-IsPrepared h
    where
      go :
          (p : Result BrokerError (AuthorizationUrl × AuthorizationSession))
          → ((url' : AuthorizationUrl) (session : AuthorizationSession)
              → p ≡ ok (url', session)
              → IsPrepared parse config readings.now text session)
          → (register encode_base64 sha256 parse readings p registry).0 ≡ ok pending
          → let registry' = (register encode_base64 sha256 parse readings p registry).1 in
            (session : AuthorizationSession) × IsPrepared parse config readings.now text session
            × ((claim pending.session_handle registry').0 ≡ ok session)
            × ((claim pending.session_handle (claim pending.session_handle registry').1).0
                ≡ err session_unknown)
      go (err e) f g = absurd (ground arith)
      go (ok (url', session)) f g =
          let (handle, inserted, made) =
            >>=-ok (insert encode_base64 readings.handles session readings.expiry_clock registry).0
              _ pending g in
          let same : handle ≡ pending.session_handle = ground arith in
          let (first, second, free) =
            claim-insert encode_base64 readings.handles readings.expiry_clock session
              pending.session_handle registry bounded (inserted ∙ ap ok same) in
          (session, f url' session refl, first, second)
