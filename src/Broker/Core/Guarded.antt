-- ===== src/Broker/Core/Guarded.antt =====
-- An operation under a permit: how it ends, and that the permit is given back.
use tersa_app.Prelude.{◌≤◌, ◌≡◌, refl, subst, Bool, true, false, length, arith}
use tersa_app.Prelude.Result.{Result, ok, err}
use tersa_app.Prelude.Action.{Action, continue}
use tersa_app.Prelude.Text.{Text}
use tersa_app.Broker.{BrokerError, consent_revoked}
use tersa_app.Broker.Handles.{new_subject}
use tersa_app.Broker.Permits.{SubjectPermits, claim_permit, drop_permit}
use tersa_app.Broker.Permits.Flights.{distinct_subjects, claim_permit_lem}
use tersa_app.Broker.Core.{BrokerCore, on_world, under_permit, with_permit, for_subject}

-- the held subjects are at most 32 and distinct
pub record IsHeld (p : SubjectPermits) : Type 0 where
  pub few : length p.held ≤ 32
  pub distinct : distinct_subjects p.held ≡ true

claim_refused :
    (subject : Text) (p : SubjectPermits) (e : BrokerError)
    → (claim_permit subject p).0 ≡ err e
    → (claim_permit subject p).1 ≡ p
unfolding claim_permit
claim_refused subject p e h = ground arith

-- the error that asks the account for a new consent
abbrev pub is_consent_revoked : BrokerError → Bool
is_consent_revoked consent_revoked = true
is_consent_revoked _ = false

claim_unrevoked :
    (subject : Text) (p : SubjectPermits) (e : BrokerError)
    → (claim_permit subject p).0 ≡ err e
    → is_consent_revoked e ≡ false
unfolding claim_permit
claim_unrevoked subject p e h = ground arith

subject_unrevoked :
    (text : Text) (e : BrokerError) → new_subject text ≡ err e → is_consent_revoked e ≡ false
unfolding new_subject
subject_unrevoked text e h = ground arith

module _ {W A : Type 0} (m : Action W BrokerError A) where
  -- what the operation ensures from the world as it is holds of the whole, or the permit is refused
  pub with_permit-Ends :
      (subject : Text) (s : BrokerCore W) (Q : Result BrokerError A → W → Type 0)
      → ((e : BrokerError) → is_consent_revoked e ≡ false → Q (err e) s.world)
      → Q (m s.world).0 (m s.world).1
      → let n = with_permit subject (on_world m) s in Q n.0 n.1.world
  unfolding with_permit
  with_permit-Ends subject s Q refused done =
      go (claim_permit subject s.permits) (claim_unrevoked subject s.permits)
    where
      go :
          (c : Result BrokerError (Unit {0}) × SubjectPermits)
          → ((e : BrokerError) → c.0 ≡ err e → is_consent_revoked e ≡ false)
          → Q
              (under_permit subject (on_world m) c s).0
              (under_permit subject (on_world m) c s).1.world
      go (ok _, p) unrevoked = done
      go (err e, p) unrevoked = refused e (unrevoked e refl)

  -- whatever it answers, the permits and the registry are as before
  pub with_permit-restores :
      (subject : Text) (s : BrokerCore W)
      → IsHeld s.permits
      → let s' = (with_permit subject (on_world m) s).1 in
        (s'.permits ≡ s.permits) × (s'.registry ≡ s.registry)
  unfolding with_permit
  with_permit-restores subject s held =
      go (claim_permit subject s.permits) (claim_refused subject s.permits)
        (λ h. (claim_permit_lem subject s.permits held.few held.distinct h).4)
    where
      go :
          (c : Result BrokerError (Unit {0}) × SubjectPermits)
          → ((e : BrokerError) → c.0 ≡ err e → c.1 ≡ s.permits)
          → (c.0 ≡ ok tt → drop_permit subject c.1 ≡ s.permits)
          → let s' = (under_permit subject (on_world m) c s).1 in
            (s'.permits ≡ s.permits) × (s'.registry ≡ s.registry)
      go (ok _, p) f g = (g refl, refl)
      go (err e, p) f g = (f e refl, refl)

new_subject_same : (text subject : Text) → new_subject text ≡ ok subject → text ≡ subject
unfolding new_subject
new_subject_same text subject h = ground arith

module _ {W A : Type 0} (body : Text → Action W BrokerError A) (account_subject : Text)
    (s : BrokerCore W) where
  pub for_subject-Ends :
      (Q : Result BrokerError A → W → Type 0)
      → ((e : BrokerError) → is_consent_revoked e ≡ false → Q (err e) s.world)
      → Q (body account_subject s.world).0 (body account_subject s.world).1
      → let n = for_subject account_subject body s in Q n.0 n.1.world
  unfolding for_subject
  for_subject-Ends Q refused done =
      go (new_subject account_subject) (new_subject_same account_subject)
        (subject_unrevoked account_subject)
    where
      go :
          (v : Result BrokerError Text)
          → ((subject : Text) → v ≡ ok subject → account_subject ≡ subject)
          → ((e : BrokerError) → v ≡ err e → is_consent_revoked e ≡ false)
          → let n =
              continue {S = BrokerCore W} {E = BrokerError}
                (λ subject. with_permit subject (on_world (body subject)))
                (λ e t. (err e, t))
                v
                s in
            Q n.0 n.1.world
      go (err e) same unrevoked = refused e (unrevoked e refl)
      go (ok subject) same unrevoked =
          with_permit-Ends (body subject) subject s Q refused
            (subst (λ x. Q (body x s.world).0 (body x s.world).1) (same subject refl) done)

  pub for_subject-restores :
      IsHeld s.permits
      → let s' = (for_subject account_subject body s).1 in
        (s'.permits ≡ s.permits) × (s'.registry ≡ s.registry)
  unfolding for_subject
  for_subject-restores held = go (new_subject account_subject)
    where
      go :
          (v : Result BrokerError Text)
          → let s' =
              (continue {S = BrokerCore W} {E = BrokerError}
                (λ subject. with_permit subject (on_world (body subject)))
                (λ e t. (err e, t))
                v
                s).1 in
            (s'.permits ≡ s.permits) × (s'.registry ≡ s.registry)
      go (err e) = (refl, refl)
      go (ok subject) = with_permit-restores (body subject) subject s held
