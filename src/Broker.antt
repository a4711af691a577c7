-- ===== src/Broker.antt =====
-- adapters/token-broker-core: the broker's errors, its pending sessions and its permits.
pub mod Handles
pub mod Registry
pub mod Permits
pub mod Core
pub mod Journal

pub data BrokerError : Type 0 where
  invalid_input : BrokerError
  invalid_configuration : BrokerError
  unavailable : BrokerError
  busy : BrokerError
  session_unknown : BrokerError
  provider_rejected : BrokerError
  authorization_code_rejected : BrokerError
  transport : BrokerError
  malformed_response : BrokerError
  insufficient_scope : BrokerError
  identity_unverified : BrokerError
  identity_mismatch : BrokerError
  missing_refresh_token : BrokerError
  consent_revoked : BrokerError
  persistence_failed : BrokerError
  revoke_unconfirmed : BrokerError
