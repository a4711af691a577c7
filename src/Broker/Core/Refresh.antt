-- ===== src/Broker/Core/Refresh.antt =====
-- adapters/token-broker-core/src/broker.rs: `refresh_access_token`.
use tersa_app.Prelude.{not, Option, none, some, if◌then◌else◌}
use tersa_app.Prelude.Result
use tersa_app.Prelude.Result.{Result, ok, err, map_err, ok_or, guard}
use tersa_app.Prelude.Action.{Action, pure, raise, lift, ◌>>=◌, ◌>>◌, on_result}
use tersa_app.Prelude.Text.{Text, codes, text_eq}
use tersa_app.Application.OAuth.Urls.{Url}
use tersa_app.Application.Token.{
  TokenError, TokenClientConfig, TokenSuccess, TokenScopeOutcome, granted, under_scoped,
  refresh_parameters, refresh_access_token_with_scope_outcome, validate_fresh,
}
use tersa_app.Broker.{BrokerError}
use tersa_app.Broker.Core.{
  Ports, BrokerConfig, BrokerCore, BrokerToken, map_token_error, token_client_config,
  is_well_shaped, broker_token, or_error, for_subject, identity_freshness_skew_secs,
}

-- `refresh_client_config`, with the parser's answer on the inert loopback URL
unfoldable pub refresh_client_config :
    (Text → Option Url) → BrokerConfig → Result BrokerError TokenClientConfig
unfolding token_client_config
refresh_client_config parse config =
    Result.◌>>=◌ (ok_or BrokerError.invalid_configuration (parse (codes "http://127.0.0.1/")))
      (token_client_config config)

-- the stored credential that a refresh needs
unfoldable pub usable_credential : Option Text → Result BrokerError Text
unfolding is_well_shaped
usable_credential none = err BrokerError.missing_refresh_token
usable_credential (some stored) =
    if is_well_shaped stored then ok stored else err BrokerError.persistence_failed

unfoldable pub usable_refresh :
    (Text → Option Url) → BrokerConfig → Option Text → Result BrokerError (Text × TokenClientConfig)
unfolding usable_credential refresh_client_config
usable_refresh parse config found = Result.◌>>=◌ (usable_credential found) (λ stored.
    Result.◌>>=◌ (refresh_client_config parse config) (λ token_config. ok (stored, token_config)))

module _ {W : Type 0} (ports : Ports W) where
  -- a rotated refresh token is stored before anything else is decided
  unfoldable pub store_rotation : Text → Option Text → Action W BrokerError (Unit {0})
  unfolding is_well_shaped
  store_rotation subject none = pure tt
  store_rotation subject (some rotated) =
      if is_well_shaped rotated
      then or_error (λ _. BrokerError.persistence_failed) (ports.store subject rotated)
      else raise BrokerError.malformed_response

  abbrev pub verify_token : TokenSuccess → Action W BrokerError BrokerToken
  verify_token success w = (
    Result.◌>>◌
        (map_err (λ _. BrokerError.identity_unverified)
          (validate_fresh success.identity_expiry (ports.wall_clock w)
            identity_freshness_skew_secs))
        (broker_token success (ports.clock w)),
    w,
  )

  unfoldable pub refresh_outcome : Text → TokenScopeOutcome → Action W BrokerError BrokerToken
  unfolding store_rotation validate_fresh broker_token
  refresh_outcome subject (granted success) =
      if not (text_eq success.subject subject)
      then raise BrokerError.identity_mismatch
      else store_rotation subject success.rotated_refresh_token >> verify_token success
  refresh_outcome subject (under_scoped access_token rotated) =
      store_rotation subject rotated >> raise BrokerError.insufficient_scope

  -- what a failed refresh does: a revoked consent deletes the stored token
  unfoldable pub refresh_failed : Text → TokenError → Action W BrokerError BrokerToken
  unfolding map_token_error
  refresh_failed subject TokenError.consent_revoked =
      or_error (λ _. BrokerError.persistence_failed) (ports.delete subject)
      >> raise BrokerError.consent_revoked
  refresh_failed subject other = raise (map_token_error other)

  -- the refresh call, over the transport and the clock of the world
  unfoldable pub refresh_stored : Text → TokenClientConfig → Action W TokenError TokenScopeOutcome
  unfolding refresh_access_token_with_scope_outcome
  refresh_stored stored config w =
      let (reply, w') = ports.refresh (refresh_parameters stored config) w in
      (refresh_access_token_with_scope_outcome stored config (λ _. reply) (ports.clock w'), w')

  abbrev pub refresh_with : Text → Text × TokenClientConfig → Action W BrokerError BrokerToken
  refresh_with subject (stored, token_config) =
      on_result (refresh_stored stored token_config) (refresh_outcome subject)
        (refresh_failed subject)

  abbrev pub refresh_found :
      (Text → Option Url) → BrokerConfig → Text → Option Text → Action W BrokerError BrokerToken
  refresh_found parse config subject found =
      lift (usable_refresh parse config found) >>= refresh_with subject

  -- the refresh under the permit
  unfoldable pub refresh_subject :
      (Text → Option Url) → BrokerConfig → Text → Action W BrokerError BrokerToken
  unfolding usable_refresh refresh_stored refresh_outcome refresh_failed
  refresh_subject parse config subject =
      or_error (λ _. BrokerError.persistence_failed) (ports.load subject)
      >>= refresh_found parse config subject

  unfoldable pub refresh_access_token :
      (Text → Option Url) → BrokerConfig → Text → Action (BrokerCore W) BrokerError BrokerToken
  unfolding for_subject refresh_subject
  refresh_access_token parse config account_subject =
      for_subject account_subject (refresh_subject parse config)
