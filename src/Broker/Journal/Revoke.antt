-- ===== src/Broker/Journal/Revoke.antt =====
-- The journal of `revoke_provider_grant`.
use tersa_app.Prelude.{
  ◌≡◌, refl, sym, subst, Bool, true, false, Bool-cases, inl, inr, Option, none, some, List, ◌∷◌,
}
use tersa_app.Prelude.Result.{Result, ok, err}
use tersa_app.Prelude.Action.{Action, pure, raise, on_result, on_result-Ends, continue, ◌>>=◌}
use tersa_app.Prelude.Text.{Text}
use tersa_app.Application.Token.{TokenTransportError}
use tersa_app.Broker.{BrokerError, persistence_failed, revoke_unconfirmed}
use tersa_app.Broker.Core.{Ports, BrokerCore, or_error, is_well_shaped}
use tersa_app.Broker.Core.Guarded.{for_subject-Ends}
use tersa_app.Broker.Core.Revoke.{unless_gone, revoke_twice, revoke_stored, revoke_provider_grant}
use tersa_app.Broker.Journal.Reads.{Read, read_lem}
use tersa_app.Broker.Journal.{Event, loaded, load_failed, revoked, journal}

-- the endpoint's answers after which the grant is gone
unfoldable pub is_gone : Result TokenTransportError (Unit {0}) → Bool
is_gone (ok _) = true
is_gone (err TokenTransportError.invalid_grant) = true
is_gone (err TokenTransportError.invalid_token) = true
is_gone (err TokenTransportError.transport) = false
is_gone (err TokenTransportError.provider_rejected) = false
is_gone (err TokenTransportError.malformed_response) = false

-- the journal of the requests for one token from `base`, by the result
pub data TwiceTrace (token : Text) (base : List Event)
    : Result BrokerError (Unit {0}) → List Event → Type 0 where
  first :
      (answer : Result TokenTransportError (Unit {0}))
      → is_gone answer ≡ true
      → TwiceTrace token base (ok tt) (revoked token answer ∷ base)
  second :
      (a b : Result TokenTransportError (Unit {0}))
      → is_gone a ≡ false
      → is_gone b ≡ true
      → TwiceTrace token base (ok tt) (revoked token b ∷ revoked token a ∷ base)
  unconfirmed :
      (a b : Result TokenTransportError (Unit {0}))
      → is_gone a ≡ false
      → is_gone b ≡ false
      → TwiceTrace token base (err revoke_unconfirmed) (revoked token b ∷ revoked token a ∷ base)

-- the journal of a revocation that starts at `past`, by its result
pub data RevokeTrace (subject : Text) (past : List Event)
    : Result BrokerError (Unit {0}) → List Event → Type 0 where
  not_begun : (e : BrokerError) → RevokeTrace subject past (err e) past
  unread : RevokeTrace subject past (err persistence_failed) (load_failed subject ∷ past)
  absent : RevokeTrace subject past (ok tt) (loaded subject none ∷ past)
  unusable :
      (token : Text)
      → RevokeTrace subject past (err persistence_failed) (loaded subject (some token) ∷ past)
  requested :
      (token : Text) (r : Result BrokerError (Unit {0})) (log : List Event)
      → TwiceTrace token (loaded subject (some token) ∷ past) r log
      → RevokeTrace subject past r log

module _ {W : Type 0} (ports : Ports W) where
  -- one request: it settles the matter, or what follows does
  unless_gone-Ends :
      (token : Text) (again : Action (W × List Event) BrokerError (Unit {0})) (s : W × List Event)
      (Q : Result BrokerError (Unit {0}) → W × List Event → Type 0)
      → ((answer : Result TokenTransportError (Unit {0})) (w : W)
          → is_gone answer ≡ true
          → Q (ok tt) (w, revoked token answer ∷ s.1))
      → ((answer : Result TokenTransportError (Unit {0})) (w : W)
          → is_gone answer ≡ false
          → Q (again (w, revoked token answer ∷ s.1)).0 (again (w, revoked token answer ∷ s.1)).1)
      → let m =
          on_result ((journal ports).revoke token) pure (unless_gone (journal ports) again) s in
        Q m.0 m.1
  unfolding unless_gone is_gone
  unless_gone-Ends token again s Q gone others =
      go (ports.revoke token s.0).0 (ports.revoke token s.0).1
    where
      go :
          (r : Result TokenTransportError (Unit {0})) (w : W)
          → let m =
              continue {S = W × List Event} {E = BrokerError} pure
                (unless_gone (journal ports) again)
                r
                (w, revoked token r ∷ s.1) in
            Q m.0 m.1
      go (ok u) w = gone (ok u) w refl
      go (err TokenTransportError.invalid_grant) w =
          gone (err TokenTransportError.invalid_grant) w refl
      go (err TokenTransportError.invalid_token) w =
          gone (err TokenTransportError.invalid_token) w refl
      go (err TokenTransportError.transport) w = others (err TokenTransportError.transport) w refl
      go (err TokenTransportError.provider_rejected) w =
          others (err TokenTransportError.provider_rejected) w refl
      go (err TokenTransportError.malformed_response) w =
          others (err TokenTransportError.malformed_response) w refl

  revoke_twice-TwiceTrace :
      (token : Text) (s : W × List Event)
      → let m = revoke_twice (journal ports) token s in TwiceTrace token s.1 m.0 m.1.1
  unfolding revoke_twice
  revoke_twice-TwiceTrace token s =
      let last =
        on_result ((journal ports).revoke token) pure
          (unless_gone (journal ports) (raise revoke_unconfirmed)) in
      unless_gone-Ends token last s (λ r s'. TwiceTrace token s.1 r s'.1)
        (λ answer w gone. first answer gone)
        (λ a w kept.
          unless_gone-Ends token (raise revoke_unconfirmed) (w, revoked token a ∷ s.1)
            (λ r s'. TwiceTrace token s.1 r s'.1) (λ b w' gone. second a b kept gone)
            (λ b w' still. unconfirmed a b kept still))

  revoke_stored-RevokeTrace :
      (subject : Text) (found : Option Text) (past : List Event) (s : W × List Event)
      → s.1 ≡ loaded subject found ∷ past
      → let m = revoke_stored (journal ports) found s in RevokeTrace subject past m.0 m.1.1
  unfolding revoke_stored
  revoke_stored-RevokeTrace subject none past s h =
      subst (RevokeTrace subject past (ok tt)) (sym h) absent
  revoke_stored-RevokeTrace subject (some token) past s h =
      elim (Bool-cases (is_well_shaped token)) [
        | inl shaped ↦ rw shaped (
            let m = revoke_twice (journal ports) token s in
            requested token m.0 m.1.1
              (subst (λ log. TwiceTrace token log m.0 m.1.1) h (revoke_twice-TwiceTrace token s)))
        | inr misshapen ↦
            rw misshapen
              (subst (RevokeTrace subject past (err persistence_failed)) (sym h) (unusable token))
      ]

  -- Whatever the ports answer, a revocation ends in one of the ways of `RevokeTrace`: at most two
  -- requests, for the stored token, the second one only after an answer that leaves the grant; it
  -- answers ok only when the store had no token or the last answer says that the grant is gone; and
  -- it stores and deletes nothing.
  pub revoke_provider_grant-RevokeTrace :
      (account_subject : Text) (s : BrokerCore (W × List Event))
      → let m = revoke_provider_grant (journal ports) account_subject s in
        RevokeTrace account_subject s.world.1 m.0 m.1.world.1
  unfolding revoke_provider_grant
  revoke_provider_grant-RevokeTrace account_subject s =
      for_subject-Ends
        (λ subject.
          or_error (λ _. persistence_failed) ((journal ports).load subject)
          >>= revoke_stored (journal ports))
        account_subject s (λ r w. RevokeTrace account_subject s.world.1 r w.1) (λ e _. not_begun e)
        (on_result-Ends (or_error (λ _. persistence_failed) ((journal ports).load account_subject))
          (revoke_stored (journal ports)) raise s.world (Read account_subject s.world.1)
          (λ r s'. RevokeTrace account_subject s.world.1 r s'.1)
          (read_lem ports account_subject s.world)
          (λ found s' h. revoke_stored-RevokeTrace account_subject found s.world.1 s' h)
          (λ e s' (h, log).
            subst (λ x. RevokeTrace account_subject s.world.1 (err x) s'.1) (sym h)
              (subst (RevokeTrace account_subject s.world.1 (err persistence_failed)) (sym log)
                unread)))
