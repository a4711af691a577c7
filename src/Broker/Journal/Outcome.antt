-- ===== src/Broker/Journal/Outcome.antt =====
-- The journal of a refresh after an answer with an outcome.
use tersa_app.Prelude.Tests.{◌==◌}
use tersa_app.Prelude.{
  ltb, ◌-◌, ◌/◌, ◌||◌, ℕ, ◌≡◌, ◌⊎◌, inl, inr, refl, sym, subst, Bool, true, false, Option, none,
  some, List, ◌∷◌, Bool-cases, if◌then◌else◌,
}
use tersa_app.Prelude.Result
use tersa_app.Prelude.Result.{Result, ok, err, map_err}
use tersa_app.Prelude.Action.{on_result-Ends, raise, ◌>>=◌}
use tersa_app.Prelude.Text.{Text, len, text_eq, text_eq_iff}
use tersa_app.Application.Token.{TokenError, TokenSuccess, TokenScopeOutcome, granted, under_scoped}
use tersa_app.Broker.{
  BrokerError, persistence_failed, malformed_response, identity_mismatch, insufficient_scope,
  identity_unverified,
}
use tersa_app.Broker.Core.Guarded.{is_consent_revoked}
use tersa_app.Broker.Core.{
  Ports, nanos_per_second, max_access_token_len, max_expires_in_secs, RefreshTokenStoreError,
  BrokerToken, is_well_shaped, broker_token,
}
use tersa_app.Broker.Core.Refresh.{store_rotation, verify_token, refresh_outcome}
use tersa_app.Broker.Journal.{Event, stored, store_failed, journal, store_event}

-- a token that is issued is for the subject, and an error is not that of a revoked consent
unfoldable pub IsIssuedFor : Text → Result BrokerError BrokerToken → Type 0
IsIssuedFor subject (ok token) = token.subject ≡ subject
IsIssuedFor subject (err e) = is_consent_revoked e ≡ false

-- the journal after an answer with an outcome, by the rotated refresh token of the answer
pub data OutcomeTrace (subject : Text) (rotated : Option Text) (base : List Event)
    : Result BrokerError BrokerToken → List Event → Type 0 where
  denied :
      (e : BrokerError)
      → is_consent_revoked e ≡ false
      → OutcomeTrace subject rotated base (err e) base
  unsaved : OutcomeTrace subject rotated base (err persistence_failed) (store_failed subject ∷ base)
  saved :
      (token : Text) (r : Result BrokerError BrokerToken)
      → rotated ≡ some token
      → is_well_shaped token ≡ true
      → IsIssuedFor subject r
      → OutcomeTrace subject rotated base r (stored subject token ∷ base)
  unrotated :
      (r : Result BrokerError BrokerToken)
      → rotated ≡ none
      → IsIssuedFor subject r
      → OutcomeTrace subject rotated base r base

abbrev pub rotated_of : TokenScopeOutcome → Option Text
rotated_of (granted success) = success.rotated_refresh_token
rotated_of (under_scoped access_token rotated) = rotated

module _ {W : Type 0} (ports : Ports W) (subject : Text) where
  -- how the store of a rotated token ends
  abbrev Rotated :
      Option Text → List Event → Result BrokerError (Unit {0}) → W × List Event → Type 0
  Rotated rotated base (ok _) s' =
      ((rotated ≡ none) × (s'.1 ≡ base))
      ⊎ ((token : Text) × (rotated ≡ some token)
          × (is_well_shaped token ≡ true)
          × (s'.1 ≡ stored subject token ∷ base))
  Rotated rotated base (err e) s' =
      ((is_consent_revoked e ≡ false) × (s'.1 ≡ base))
      ⊎ ((e ≡ persistence_failed) × (s'.1 ≡ store_failed subject ∷ base))

  store_rotation-Rotated :
      (rotated : Option Text) (s : W × List Event)
      → let m = store_rotation (journal ports) subject rotated s in Rotated rotated s.1 m.0 m.1
  unfolding store_rotation
  store_rotation-Rotated none s = inl (refl, refl)
  store_rotation-Rotated (some token) s = elim (Bool-cases (is_well_shaped token)) [
    | inl shaped ↦
        rw shaped (go shaped (ports.store subject token s.0).0 (ports.store subject token s.0).1)
    | inr misshapen ↦ rw misshapen (inl (refl, refl))
  ]
    where
      go :
          is_well_shaped token ≡ true
          → (r : Result RefreshTokenStoreError (Unit {0})) (w : W)
          → Rotated
              (some token)
              s.1
              (map_err (λ _. persistence_failed) r)
              (w, store_event subject token r ∷ s.1)
      go shaped (ok _) w = inr (token, refl, shaped, refl)
      go shaped (err _) w = inr (refl, refl)

  rotated-OutcomeTrace :
      (rotated : Option Text) (base log : List Event) (r : Result BrokerError BrokerToken)
      → IsIssuedFor subject r
      → ((rotated ≡ none) × (log ≡ base))
        ⊎ ((token : Text) × (rotated ≡ some token)
            × (is_well_shaped token ≡ true)
            × (log ≡ stored subject token ∷ base))
      → OutcomeTrace subject rotated base r log
  rotated-OutcomeTrace rotated base log r issued (inl (absent, h)) =
      subst (OutcomeTrace subject rotated base r) (sym h) (unrotated r absent issued)
  rotated-OutcomeTrace rotated base log r issued (inr (token, present, shaped, h)) =
      subst (OutcomeTrace subject rotated base r) (sym h) (saved token r present shaped issued)

  unsaved-OutcomeTrace :
      (rotated : Option Text) (base log : List Event) (e : BrokerError)
      → ((is_consent_revoked e ≡ false) × (log ≡ base))
        ⊎ ((e ≡ persistence_failed) × (log ≡ store_failed subject ∷ base))
      → OutcomeTrace subject rotated base (err e) log
  unsaved-OutcomeTrace rotated base log e (inl (other, h)) =
      subst (OutcomeTrace subject rotated base (err e)) (sym h) (denied e other)
  unsaved-OutcomeTrace rotated base log e (inr (failed, h)) =
      subst (λ x. OutcomeTrace subject rotated base (err x) log) (sym failed)
        (subst (OutcomeTrace subject rotated base (err persistence_failed)) (sym h) unsaved)

  rotation-OutcomeTrace :
      (rotated : Option Text) (f : Unit {0} → W × List Event → Result BrokerError BrokerToken)
      (s : W × List Event)
      → ((s' : W × List Event) → IsIssuedFor subject (f tt s'))
      → let m = (store_rotation (journal ports) subject rotated >>= (λ u w. (f u w, w))) s in
        OutcomeTrace subject rotated s.1 m.0 m.1.1
  rotation-OutcomeTrace rotated f s issued =
      on_result-Ends (store_rotation (journal ports) subject rotated) (λ u w. (f u w, w)) raise s
        (Rotated rotated s.1) (λ r s'. OutcomeTrace subject rotated s.1 r s'.1)
        (store_rotation-Rotated rotated s)
        (λ u s' h. rotated-OutcomeTrace rotated s.1 s'.1 (f u s') (issued s') h)
        (λ e s' h. unsaved-OutcomeTrace rotated s.1 s'.1 e h)

  guarded-IsIssuedFor :
      (b : Bool) (e : BrokerError) (t : Result BrokerError BrokerToken)
      → is_consent_revoked e ≡ false
      → IsIssuedFor subject t
      → IsIssuedFor subject (if b then err e else t)
  unfolding IsIssuedFor
  guarded-IsIssuedFor true e t other h = other
  guarded-IsIssuedFor false e t other h = h

  broker_token-IsIssuedFor :
      (success : TokenSuccess) (now : ℕ)
      → success.subject ≡ subject
      → IsIssuedFor subject (broker_token success now)
  unfolding broker_token IsIssuedFor
  broker_token-IsIssuedFor success now h =
      let secs = (success.access_expires_at - now) / nanos_per_second in
      guarded-IsIssuedFor (ltb max_access_token_len (len success.access_token)) malformed_response _
        refl
        (guarded-IsIssuedFor (secs == 0 || ltb max_expires_in_secs secs) malformed_response
          (ok (record {
            access_token = success.access_token;
            subject = success.subject;
            expires_in_seconds = secs;
          }))
          refl h)

  verified-IsIssuedFor :
      (r : Result TokenError (Unit {0})) (t : Result BrokerError BrokerToken)
      → IsIssuedFor subject t
      → IsIssuedFor subject (Result.◌>>◌ (map_err (λ _. identity_unverified) r) t)
  unfolding IsIssuedFor
  verified-IsIssuedFor (ok _) t h = h
  verified-IsIssuedFor (err e) t h = refl

  pub refresh_outcome-OutcomeTrace :
      (outcome : TokenScopeOutcome) (s : W × List Event)
      → let m = refresh_outcome (journal ports) subject outcome s in
        OutcomeTrace subject (rotated_of outcome) s.1 m.0 m.1.1
  unfolding refresh_outcome IsIssuedFor
  refresh_outcome-OutcomeTrace (granted success) s =
      elim (Bool-cases (text_eq success.subject subject)) [
        | inl same ↦ rw same (
            rotation-OutcomeTrace success.rotated_refresh_token
              (λ _ w. (verify_token (journal ports) success w).0) s
              (λ w. verified-IsIssuedFor _ _ (
                broker_token-IsIssuedFor success _ ((text_eq_iff success.subject subject).0 same))))
        | inr other ↦ rw other (denied identity_mismatch refl)
      ]
  refresh_outcome-OutcomeTrace (under_scoped access_token rotated) s =
      rotation-OutcomeTrace rotated (λ _ _. err insufficient_scope) s (λ _. refl)
