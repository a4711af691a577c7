-- ===== src/Broker/Journal/Refresh.antt =====
-- The journal of `refresh_access_token`.
use tersa_app.Prelude.{◌≡◌, refl, false, ◌∙◌, ap, sym, subst, Option, none, some, List, ◌∷◌, arith}
use tersa_app.Prelude.Result.{Result, ok, err, map_err}
use tersa_app.Prelude.Action.{continue, on_result-Ends, lift, raise, ◌>>=◌}
use tersa_app.Prelude.Text.{Text}
use tersa_app.Application.OAuth.Urls.{Url}
use tersa_app.Application.Token.{TokenError, TokenTransportError, TokenClientConfig, TokenResponse}
use tersa_app.Broker.{BrokerError, persistence_failed, consent_revoked}
use tersa_app.Broker.Core.{
  Ports, RefreshTokenStoreError, BrokerConfig, BrokerCore, BrokerToken, or_error, map_token_error,
  token_client_config,
}
use tersa_app.Broker.Core.Guarded.{for_subject-Ends, is_consent_revoked}
use tersa_app.Broker.Core.Refresh.{
  refresh_outcome, refresh_failed, refresh_stored, refresh_with, refresh_found, usable_refresh,
  usable_credential, refresh_client_config, refresh_subject, refresh_access_token,
}
use tersa_app.Broker.Journal.Reads.{Read, read_lem}
use tersa_app.Broker.Journal.{
  Event, loaded, load_failed, deleted, delete_failed, refreshed, journal, delete_event,
}
use tersa_app.Broker.Journal.Outcome.{OutcomeTrace, refresh_outcome-OutcomeTrace}
use tersa_app.Broker.Journal.Answers.{
  Asked, is_invalid_grant, invalid_grant_lem, refresh_stored-Asked,
}

-- the journal of a refresh that starts at `past`, by its result
pub data RefreshTrace (subject : Text) (past : List Event)
    : Result BrokerError BrokerToken → List Event → Type 0 where
  not_begun :
      (e : BrokerError) → is_consent_revoked e ≡ false → RefreshTrace subject past (err e) past
  unread : RefreshTrace subject past (err persistence_failed) (load_failed subject ∷ past)
  unusable :
      (found : Option Text) (e : BrokerError)
      → is_consent_revoked e ≡ false
      → RefreshTrace subject past (err e) (loaded subject found ∷ past)
  refused :
      (token : Text) (answer : Result TokenTransportError TokenResponse) (e : BrokerError)
      → is_invalid_grant answer ≡ false
      → is_consent_revoked e ≡ false
      → RefreshTrace subject past (err e) (refreshed answer ∷ loaded subject (some token) ∷ past)
  forgotten :
      (token : Text)
      → RefreshTrace subject past (err consent_revoked) (
          deleted subject
          ∷ refreshed (err TokenTransportError.invalid_grant)
          ∷ loaded subject (some token)
          ∷ past)
  unforgotten :
      (token : Text)
      → RefreshTrace subject past (err persistence_failed) (
          delete_failed subject
          ∷ refreshed (err TokenTransportError.invalid_grant)
          ∷ loaded subject (some token)
          ∷ past)
  answered :
      (token : Text) (response : TokenResponse) (r : Result BrokerError BrokerToken)
      (log : List Event)
      → OutcomeTrace subject response.rotated_refresh_token
          (refreshed (ok response) ∷ loaded subject (some token) ∷ past)
          r
          log
      → RefreshTrace subject past r log

module _ {W : Type 0} (ports : Ports W) (subject : Text) where
  refused-RefreshTrace :
      (token : Text) (past : List Event) (answer : Result TokenTransportError TokenResponse)
      (e : BrokerError) (log : List Event)
      → log ≡ refreshed answer ∷ loaded subject (some token) ∷ past
      → is_invalid_grant answer ≡ false
      → is_consent_revoked e ≡ false
      → RefreshTrace subject past (err e) log
  refused-RefreshTrace token past answer e log h other unrevoked =
      subst (RefreshTrace subject past (err e)) (sym h) (refused token answer e other unrevoked)

  -- how the deletion after a revoked consent ends
  delete-RefreshTrace :
      (token : Text) (past : List Event) (s : W × List Event)
      → s.1 ≡ refreshed (err TokenTransportError.invalid_grant) ∷ loaded subject (some token) ∷ past
      → let m =
          (or_error (λ _. persistence_failed) ((journal ports).delete subject)
              >>= (λ _. raise {A = BrokerToken} consent_revoked))
            s in
        RefreshTrace subject past m.0 m.1.1
  delete-RefreshTrace token past s h = go (ports.delete subject s.0).0 (ports.delete subject s.0).1
    where
      go :
          (r : Result RefreshTokenStoreError (Unit {0})) (w : W)
          → let m =
              continue {S = W × List Event} {E = BrokerError}
                (λ _. raise {A = BrokerToken} consent_revoked)
                raise
                (map_err (λ _. persistence_failed) r)
                (w, delete_event subject r ∷ s.1) in
            RefreshTrace subject past m.0 m.1.1
      go (ok _) w =
          subst (λ log. RefreshTrace subject past (err consent_revoked) (deleted subject ∷ log))
            (sym h) (forgotten token)
      go (err _) w =
          subst
            (λ log.
              RefreshTrace subject past (err persistence_failed) (delete_failed subject ∷ log))
            (sym h) (unforgotten token)

  refresh_failed-RefreshTrace :
      (token : Text) (past : List Event) (e : TokenError) (s : W × List Event)
      → Asked (loaded subject (some token) ∷ past) (err e) s
      → let m = refresh_failed (journal ports) subject e s in RefreshTrace subject past m.0 m.1.1
  unfolding refresh_failed map_token_error
  refresh_failed-RefreshTrace token past TokenError.consent_revoked s (answer, h, gone) =
      delete-RefreshTrace token past s (
        h
        ∙ ap (λ a. refreshed a ∷ loaded subject (some token) ∷ past)
            (invalid_grant_lem answer gone))
  refresh_failed-RefreshTrace token past TokenError.invalid_configuration s (answer, h, gone) =
      refused-RefreshTrace token past answer BrokerError.invalid_configuration s.1 h gone refl
  refresh_failed-RefreshTrace token past TokenError.transport s (answer, h, gone) =
      refused-RefreshTrace token past answer BrokerError.transport s.1 h gone refl
  refresh_failed-RefreshTrace token past TokenError.provider_rejected s (answer, h, gone) =
      refused-RefreshTrace token past answer BrokerError.provider_rejected s.1 h gone refl
  refresh_failed-RefreshTrace token past TokenError.authorization_code_rejected s
        (answer, h, gone) =
      refused-RefreshTrace token past answer BrokerError.authorization_code_rejected s.1 h gone refl
  refresh_failed-RefreshTrace token past TokenError.malformed_response s (answer, h, gone) =
      refused-RefreshTrace token past answer BrokerError.malformed_response s.1 h gone refl
  refresh_failed-RefreshTrace token past TokenError.insufficient_scope s (answer, h, gone) =
      refused-RefreshTrace token past answer BrokerError.insufficient_scope s.1 h gone refl
  refresh_failed-RefreshTrace token past TokenError.identity_unverified s (answer, h, gone) =
      refused-RefreshTrace token past answer BrokerError.identity_unverified s.1 h gone refl

  refresh_with-RefreshTrace :
      (token : Text) (config : TokenClientConfig) (past : List Event) (s : W × List Event)
      → s.1 ≡ loaded subject (some token) ∷ past
      → let m = refresh_with (journal ports) subject (token, config) s in
        RefreshTrace subject past m.0 m.1.1
  refresh_with-RefreshTrace token config past s h =
      on_result-Ends (refresh_stored (journal ports) token config)
        (refresh_outcome (journal ports) subject) (refresh_failed (journal ports) subject) s
        (Asked (loaded subject (some token) ∷ past)) (λ r s'. RefreshTrace subject past r s'.1)
        (let m = refresh_stored (journal ports) token config s in
          subst (λ log. Asked log m.0 m.1) h (refresh_stored-Asked ports token config s))
        (λ outcome s' (response, same, log).
          let m = refresh_outcome (journal ports) subject outcome s' in
          answered token response m.0 m.1.1 (
            subst (λ base. OutcomeTrace subject response.rotated_refresh_token base m.0 m.1.1) log
              (subst (λ rotated. OutcomeTrace subject rotated s'.1 m.0 m.1.1) same
                (refresh_outcome-OutcomeTrace ports subject outcome s'))))
        (λ e s' asked. refresh_failed-RefreshTrace token past e s' asked)

  usable_refresh_lem :
      (parse : Text → Option Url) (config : BrokerConfig) (found : Option Text)
      (u : Text × TokenClientConfig)
      → usable_refresh parse config found ≡ ok u
      → found ≡ some u.0
  unfolding usable_refresh usable_credential
  usable_refresh_lem parse config none u h = absurd (ground arith)
  usable_refresh_lem parse config (some token) u h = ground arith

  usable_refresh_unrevoked :
      (parse : Text → Option Url) (config : BrokerConfig) (found : Option Text) (e : BrokerError)
      → usable_refresh parse config found ≡ err e
      → is_consent_revoked e ≡ false
  unfolding usable_refresh usable_credential refresh_client_config token_client_config
  usable_refresh_unrevoked parse config none e h = ground arith
  usable_refresh_unrevoked parse config (some token) e h = ground arith

  refresh_found-RefreshTrace :
      (parse : Text → Option Url) (config : BrokerConfig) (found : Option Text) (past : List Event)
      (s : W × List Event)
      → s.1 ≡ loaded subject found ∷ past
      → let m = refresh_found (journal ports) parse config subject found s in
        RefreshTrace subject past m.0 m.1.1
  refresh_found-RefreshTrace parse config found past s h =
      on_result-Ends (lift (usable_refresh parse config found))
        (refresh_with (journal ports) subject) raise s
        (λ r s'. (r ≡ usable_refresh parse config found) × (s'.1 ≡ loaded subject found ∷ past))
        (λ r s'. RefreshTrace subject past r s'.1) (refl, h)
        (λ u s' (same, log). refresh_with-RefreshTrace u.0 u.1 past s' (
          log
          ∙ ap (λ f. loaded subject f ∷ past) (usable_refresh_lem parse config found u (sym same))))
        (λ e s' (same, log).
          subst (RefreshTrace subject past (err e)) (sym log)
            (unusable found e (usable_refresh_unrevoked parse config found e (sym same))))

  refresh_subject-RefreshTrace :
      (parse : Text → Option Url) (config : BrokerConfig) (s : W × List Event)
      → let m = refresh_subject (journal ports) parse config subject s in
        RefreshTrace subject s.1 m.0 m.1.1
  unfolding refresh_subject
  refresh_subject-RefreshTrace parse config s =
      on_result-Ends (or_error (λ _. persistence_failed) ((journal ports).load subject))
        (refresh_found (journal ports) parse config subject) raise s (Read subject s.1)
        (λ r s'. RefreshTrace subject s.1 r s'.1) (read_lem ports subject s)
        (λ found s' h. refresh_found-RefreshTrace parse config found s.1 s' h)
        (λ e s' (h, log).
          subst (λ x. RefreshTrace subject s.1 (err x) s'.1) (sym h)
            (subst (RefreshTrace subject s.1 (err persistence_failed)) (sym log) unread))

module _ {W : Type 0} (ports : Ports W) where
  -- Whatever its ports answer, a refresh ends in one of the ways of `RefreshTrace`. It asks the endpoint
  -- only with a stored credential, and deletes it just after the answer `invalid_grant`; it reports the
  -- revoked consent only when that deletion succeeded, and never otherwise. It stores only a well-shaped refresh token of
  -- the answer, and returns a token only for the requested subject, with no rotated refresh token left
  -- unstored. It revokes nothing.
  pub refresh_access_token-RefreshTrace :
      (parse : Text → Option Url) (config : BrokerConfig) (account_subject : Text)
      (s : BrokerCore (W × List Event))
      → let m = refresh_access_token (journal ports) parse config account_subject s in
        RefreshTrace account_subject s.world.1 m.0 m.1.world.1
  unfolding refresh_access_token
  refresh_access_token-RefreshTrace parse config account_subject s =
      for_subject-Ends (refresh_subject (journal ports) parse config) account_subject s
        (λ r w. RefreshTrace account_subject s.world.1 r w.1) not_begun
        (refresh_subject-RefreshTrace ports account_subject parse config s.world)
