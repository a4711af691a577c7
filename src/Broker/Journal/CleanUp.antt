-- ===== src/Broker/Journal/CleanUp.antt =====
-- The clean-up of a grant that is not stored, and how a store ends with it, in the journal.
use tersa_app.Prelude.{ap, subst, ◌≡◌, refl, Option, none, some, List, ◌∷◌, arith, if◌then◌else◌}
use tersa_app.Prelude.Result.{Result, ok, err}
use tersa_app.Prelude.Action.{continue, pure, raise, on_result, on_result-Ends}
use tersa_app.Prelude.Text.{Text}
use tersa_app.Application.Token.{TokenSuccess, TokenTransportError}
use tersa_app.Broker.{BrokerError, persistence_failed}
use tersa_app.Broker.Core.{Ports}
use tersa_app.Broker.Core.Complete.{
  revoke_best_effort, licenses_revoke, snapshot_of, revoke_some, revoke_handle,
  revoke_stranded_grant, or_clean_up,
}
use tersa_app.Broker.Journal.{Event, stored, store_failed, revoked, journal, store_event}

-- the clean-up after what the store had for the subject: only an empty store lets it revoke
pub data CleanUp (handle : Option Text) (past : List Event)
    : Option Text → List Event → Type 0 where
  kept : (old : Text) → CleanUp handle past (some old) past
  unrevocable : handle ≡ none → CleanUp handle past none past
  undone :
      (token : Text) (answer : Result TokenTransportError (Unit {0}))
      → handle ≡ some token
      → CleanUp handle past none (revoked token answer ∷ past)

module _ {W : Type 0} (ports : Ports W) (success : TokenSuccess) where
  handle_cleaned :
      (handle : Option Text) (found : Option Text) (s : W × List Event)
      → CleanUp handle s.1 found
          ((if licenses_revoke (snapshot_of found)
              then revoke_some (journal ports) handle
              else pure tt)
            s).1.1
  unfolding revoke_best_effort
  handle_cleaned handle (some old) s = kept old
  handle_cleaned none none s = unrevocable refl
  handle_cleaned (some token) none s = go (ports.revoke token s.0).0 (ports.revoke token s.0).1
    where
      go :
          (r : Result TokenTransportError (Unit {0})) (w : W)
          → CleanUp
              (some token)
              s.1
              none
              (continue {S = W × List Event} {E = BrokerError} pure
                (λ _. pure tt)
                r
                (w, revoked token r ∷ s.1)).1.1
      go (ok u) w = undone token (ok u) refl
      go (err e) w = undone token (err e) refl

  -- how a check with a clean-up ends, from the state `t`
  abbrev pub Checked :
      {A : Type 0}
      → W × List Event
      → Option Text
      → Result BrokerError A
      → Result BrokerError A
      → W × List Event
      → Type 0
  Checked t found r (ok a) s' = (r ≡ ok a) × (s' ≡ t)
  Checked t found r (err e) s' = CleanUp (revoke_handle success) t.1 found s'.1

  clean_up-Checked :
      {A : Type 0} (found : Option Text) (r : Result BrokerError A) (s : W × List Event)
      → let m = or_clean_up (journal ports) (snapshot_of found) success r s in
        Checked s found r m.0 m.1
  unfolding revoke_stranded_grant
  clean_up-Checked found (ok a) s = (refl, refl)
  clean_up-Checked found (err e) s =
      on_result-Ends (revoke_stranded_grant (journal ports) (snapshot_of found) success)
        (λ _. raise e) raise s (λ _ s'. CleanUp (revoke_handle success) s.1 found s'.1)
        (Checked s found (err e)) (handle_cleaned (revoke_handle success) found s) (λ _ s' c. c)
        (λ _ s' c. c)

  pub or_clean_up-Checked :
      {A : Type 0} (t : W × List Event) (found : Option Text) (r : Result BrokerError A)
      (s : W × List Event)
      → s ≡ t
      → let m = or_clean_up (journal ports) (snapshot_of found) success r s in
        Checked t found r m.0 m.1
  or_clean_up-Checked t found r s h =
      let m = or_clean_up (journal ports) (snapshot_of found) success r s in
      subst (λ x. Checked x found r m.0 m.1) h (clean_up-Checked found r s)

  -- how the store ends
  abbrev pub Saved :
      Text
      → Text
      → List Event
      → Option Text
      → Result BrokerError (Unit {0})
      → W × List Event
      → Type 0
  Saved subject refresh_token base found (ok _) s' = s'.1 ≡ stored subject refresh_token ∷ base
  Saved subject refresh_token base found (err e) s' =
      CleanUp (revoke_handle success) (store_failed subject ∷ base) found s'.1

  failed-Saved :
      (subject refresh_token : Text) (base : List Event) (found : Option Text) (e : BrokerError)
      (t : W × List Event) (r : Result BrokerError (Unit {0})) (s' : W × List Event)
      → t.1 ≡ store_failed subject ∷ base
      → Checked t found (err e) r s'
      → Saved subject refresh_token base found r s'
  failed-Saved subject refresh_token base found e t (ok _) s' h c = absurd (ground (arith, c.0))
  failed-Saved subject refresh_token base found e t (err _) s' h c =
      subst (λ log. CleanUp (revoke_handle success) log found s'.1) h c

  pub store-Saved :
      (subject refresh_token : Text) (base : List Event) (found : Option Text) (s : W × List Event)
      → s.1 ≡ base
      → let m =
          on_result
            ((journal ports).store subject refresh_token)
            pure
            (λ _.
              or_clean_up
                (journal ports)
                {A = Unit {0}}
                (snapshot_of found)
                success
                (err persistence_failed))
            s in
        Saved subject refresh_token base found m.0 m.1
  store-Saved subject refresh_token base found s h =
      on_result-Ends ((journal ports).store subject refresh_token) pure
        (λ _.
          or_clean_up (journal ports) {A = Unit {0}} (snapshot_of found) success
            (err persistence_failed))
        s (λ r s'. s'.1 ≡ store_event subject refresh_token r ∷ base)
        (Saved subject refresh_token base found)
        (ap
          (λ log. store_event subject refresh_token (ports.store subject refresh_token s.0).0 ∷ log)
          h)
        (λ _ s' saved. saved)
        (λ _ s' failed.
          let m =
            or_clean_up (journal ports) {A = Unit {0}} (snapshot_of found) success
              (err persistence_failed) s' in
          failed-Saved subject refresh_token base found persistence_failed s' m.0 m.1 failed
            (clean_up-Checked {A = Unit {0}} found (err persistence_failed) s'))
