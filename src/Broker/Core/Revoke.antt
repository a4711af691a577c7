-- ===== src/Broker/Core/Revoke.antt =====
-- adapters/token-broker-core/src/broker.rs: `revoke_provider_grant` and `delete_stored_tokens`.
use tersa_app.Prelude.{Option, none, some, if◌then◌else◌}
use tersa_app.Prelude.Action.{Action, pure, raise, ◌>>=◌, on_result}
use tersa_app.Prelude.Text.{Text}
use tersa_app.Application.Token.{TokenTransportError}
use tersa_app.Broker.{BrokerError}
use tersa_app.Broker.Core.{Ports, BrokerCore, is_well_shaped, or_error, for_subject}

module _ {W : Type 0} (ports : Ports W) where
  -- an answer that means that the grant is gone is a success, and another failure goes on
  unfoldable pub unless_gone :
      Action W BrokerError (Unit {0}) → TokenTransportError → Action W BrokerError (Unit {0})
  unless_gone again TokenTransportError.invalid_grant = pure tt
  unless_gone again TokenTransportError.invalid_token = pure tt
  unless_gone again TokenTransportError.transport = again
  unless_gone again TokenTransportError.provider_rejected = again
  unless_gone again TokenTransportError.malformed_response = again

  -- the revocation, with its one retry
  unfoldable pub revoke_twice : Text → Action W BrokerError (Unit {0})
  unfolding unless_gone
  revoke_twice token = on_result (ports.revoke token) pure (
      unless_gone
        (on_result (ports.revoke token) pure (unless_gone (raise BrokerError.revoke_unconfirmed))))

  unfoldable pub revoke_stored : Option Text → Action W BrokerError (Unit {0})
  unfolding revoke_twice is_well_shaped
  revoke_stored none = pure tt
  revoke_stored (some token) =
      if is_well_shaped token then revoke_twice token else raise BrokerError.persistence_failed

  unfoldable pub revoke_provider_grant : Text → Action (BrokerCore W) BrokerError (Unit {0})
  unfolding for_subject revoke_stored
  revoke_provider_grant account_subject = for_subject account_subject (λ subject.
      or_error (λ _. BrokerError.persistence_failed) (ports.load subject) >>= revoke_stored)

  unfoldable pub delete_stored_tokens : Text → Action (BrokerCore W) BrokerError (Unit {0})
  unfolding for_subject
  delete_stored_tokens account_subject =
      for_subject account_subject
        (λ subject. or_error (λ _. BrokerError.persistence_failed) (ports.delete subject))
