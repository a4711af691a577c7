-- ===== src/Broker/Core/Complete.antt =====
-- adapters/token-broker-core/src/broker.rs: `complete_authorization` and the clean-up of a grant
-- that ends without being stored.
use tersa_app.Prelude.{ℕ, Bool, true, false, ◌||◌, Option, none, some, is_empty, ltb, if◌then◌else◌}
use tersa_app.Prelude.Result
use tersa_app.Prelude.Result.{Result, ok, err, map_err, ok_or, guard}
use tersa_app.Prelude.Action.{Action, pure, raise, lift, ◌>>=◌, ◌>>◌, on_result}
use tersa_app.Prelude.Text.{Text, len}
use tersa_app.Application.OAuth.Urls.{Url}
use tersa_app.Application.OAuth.{AuthorizationGrant, AuthorizationSession, finish}
use tersa_app.Application.Token.{
  TokenClientConfig, TokenSuccess, TokenScopeOutcome, granted, under_scoped, exchange_parameters,
  exchange_grant_with_scope_outcome, validate_fresh,
}
use tersa_app.Broker.{BrokerError}
use tersa_app.Broker.Handles.{parse_handle, new_subject}
use tersa_app.Broker.Registry.{claim}
use tersa_app.Broker.Core.{
  Ports, BrokerConfig, BrokerCore, BrokerToken, map_oauth_error, map_token_error,
  token_client_config, is_well_shaped, broker_token, on_world, or_error, with_permit,
  max_access_token_len, identity_freshness_skew_secs,
}

abbrev pub max_callback_len : ℕ
max_callback_len = 4096

pub data StoreSnapshot : Type 0 where
  empty : StoreSnapshot
  occupied : StoreSnapshot

abbrev pub licenses_revoke : StoreSnapshot → Bool
licenses_revoke empty = true
licenses_revoke occupied = false

abbrev pub snapshot_of : Option Text → StoreSnapshot
snapshot_of none = empty
snapshot_of (some stored) = occupied

abbrev pub well_shaped_rotation : Option Text → Option Text
well_shaped_rotation none = none
well_shaped_rotation (some rotated) = if is_well_shaped rotated then some rotated else none

abbrev pub or_access_token : Text → Option Text → Option Text
or_access_token access_token (some rotated) = some rotated
or_access_token access_token none =
    if is_empty access_token || ltb max_access_token_len (len access_token)
    then none
    else some access_token

unfoldable pub revoke_handle : TokenSuccess → Option Text
unfolding is_well_shaped
revoke_handle success =
    or_access_token success.access_token (well_shaped_rotation success.rotated_refresh_token)

-- the refresh token that a completed authorization must have
unfoldable pub granted_refresh_token : TokenSuccess → Result BrokerError Text
unfolding is_well_shaped
granted_refresh_token success = elim success.rotated_refresh_token [
  | none ↦ err BrokerError.missing_refresh_token
  | some refresh_token ↦
      if is_well_shaped refresh_token then ok refresh_token else err BrokerError.malformed_response
]

-- the client configuration for the session and the parsed callback
unfoldable pub parsed_callback :
    (Text → Option Url)
    → BrokerConfig
    → Text
    → AuthorizationSession
    → Result BrokerError (TokenClientConfig × Url)
unfolding token_client_config
parsed_callback parse config callback_url session =
    Result.◌>>=◌ (token_client_config config session.redirect_uri) (λ token_config.
      if ltb max_callback_len (len callback_url)
      then err BrokerError.invalid_input
      else Result.◌>>=◌ (ok_or BrokerError.invalid_input (parse callback_url))
          (λ callback. ok (token_config, callback)))

module _ {W : Type 0} (ports : Ports W) where
  -- `revoke_best_effort`
  unfoldable pub revoke_best_effort : Text → Action W BrokerError (Unit {0})
  revoke_best_effort token = on_result (ports.revoke token) pure (λ _. pure tt)

  abbrev pub revoke_some : Option Text → Action W BrokerError (Unit {0})
  revoke_some none = pure tt
  revoke_some (some handle) = revoke_best_effort handle

  unfoldable pub revoke_stranded_grant :
      StoreSnapshot → TokenSuccess → Action W BrokerError (Unit {0})
  unfolding revoke_best_effort revoke_handle
  revoke_stranded_grant snapshot success =
      if licenses_revoke snapshot then revoke_some (revoke_handle success) else pure tt

  -- a check whose failure runs the clean-up before it is returned
  abbrev pub or_clean_up :
      {A : Type 0} → StoreSnapshot → TokenSuccess → Result BrokerError A → Action W BrokerError A
  or_clean_up snapshot success (ok a) = pure a
  or_clean_up snapshot success (err e) = revoke_stranded_grant snapshot success >> raise e

  -- the end of a completion: the store, and its clean-up
  abbrev pub save_grant :
      Text → TokenSuccess → StoreSnapshot → BrokerToken → Text → Action W BrokerError BrokerToken
  save_grant subject success snapshot token refresh_token =
      on_result (ports.store subject refresh_token) pure
        (λ _. or_clean_up snapshot success (err BrokerError.persistence_failed))
      >> pure token

  abbrev pub save_token :
      Text → TokenSuccess → StoreSnapshot → BrokerToken → Action W BrokerError BrokerToken
  save_token subject success snapshot token =
      or_clean_up snapshot success (granted_refresh_token success)
      >>= save_grant subject success snapshot token

  abbrev pub issue_token : StoreSnapshot → TokenSuccess → Action W BrokerError BrokerToken
  issue_token snapshot success w =
      or_clean_up snapshot success (broker_token success (ports.clock w)) w

  abbrev pub require_fresh : StoreSnapshot → TokenSuccess → Action W BrokerError (Unit {0})
  require_fresh snapshot success w =
      or_clean_up snapshot success
        (map_err (λ _. BrokerError.identity_unverified)
          (validate_fresh success.identity_expiry (ports.wall_clock w)
            identity_freshness_skew_secs))
        w

  -- what is done for a granted response under the permit, once the snapshot is taken
  unfoldable pub store_grant :
      Text → TokenSuccess → StoreSnapshot → Action W BrokerError BrokerToken
  unfolding revoke_stranded_grant validate_fresh broker_token granted_refresh_token
  store_grant subject success snapshot =
      require_fresh snapshot success
      >> (issue_token snapshot success >>= save_token subject success snapshot)

  unfoldable pub complete_granted : Text → TokenSuccess → Action W BrokerError BrokerToken
  unfolding store_grant
  complete_granted subject success = do
    stored ← or_error (λ _. BrokerError.persistence_failed) (ports.load subject)
    store_grant subject success (snapshot_of stored)

  abbrev pub complete_subject :
      TokenSuccess → Result BrokerError Text → Action (BrokerCore W) BrokerError BrokerToken
  complete_subject success (err e) = raise BrokerError.identity_unverified
  complete_subject success (ok subject) =
      with_permit subject (on_world (complete_granted subject success))

  unfoldable pub complete_outcome :
      TokenScopeOutcome → Action (BrokerCore W) BrokerError BrokerToken
  unfolding new_subject with_permit complete_granted
  complete_outcome (granted success) = complete_subject success (new_subject success.subject)
  complete_outcome (under_scoped access_token rotated) = raise BrokerError.insufficient_scope

  -- the exchange, over the transport and the clock of the world
  unfoldable pub exchange_code :
      AuthorizationGrant → TokenClientConfig → Action W BrokerError TokenScopeOutcome
  unfolding exchange_grant_with_scope_outcome map_token_error
  exchange_code grant config w =
      let (reply, w') = ports.exchange (exchange_parameters grant config) w in
      (
        map_err map_token_error
            (exchange_grant_with_scope_outcome grant config (λ _. reply) (ports.clock w')),
        w',
      )

  -- `session.finish(&callback)`, at the time of the clock; the session is dropped afterwards
  unfoldable pub finish_session :
      AuthorizationSession → Url → Action W BrokerError AuthorizationGrant
  unfolding finish map_oauth_error
  finish_session session callback w =
      (map_err map_oauth_error (finish (ports.clock w) callback session).0, w)

  -- `self.registry.claim(&handle)?`
  unfoldable pub claim_session : Text → Action (BrokerCore W) BrokerError AuthorizationSession
  unfolding claim
  claim_session handle s =
      let (r, registry) = claim handle s.registry in (r, record s { registry = registry })

  abbrev pub exchange_and_complete :
      TokenClientConfig → AuthorizationGrant → Action (BrokerCore W) BrokerError BrokerToken
  exchange_and_complete token_config grant =
      on_world (exchange_code grant token_config) >>= complete_outcome

  abbrev pub answer_callback :
      AuthorizationSession → TokenClientConfig × Url → Action (BrokerCore W) BrokerError BrokerToken
  answer_callback session (token_config, callback) =
      on_world (finish_session session callback) >>= exchange_and_complete token_config

  unfoldable pub complete_claimed :
      (Text → Option Url)
      → BrokerConfig
      → Text
      → AuthorizationSession
      → Action (BrokerCore W) BrokerError BrokerToken
  unfolding complete_outcome exchange_code finish_session parsed_callback
  complete_claimed parse config callback_url session =
      lift (parsed_callback parse config callback_url session) >>= answer_callback session

  unfoldable pub complete_authorization :
      (Text → Option Url)
      → BrokerConfig
      → Text
      → Text
      → Action (BrokerCore W) BrokerError BrokerToken
  unfolding parse_handle claim_session complete_claimed
  complete_authorization parse config session_handle callback_url =
      lift (parse_handle session_handle) >>= λ handle.
      claim_session handle >>= complete_claimed parse config callback_url
