-- ===== src/Application/Lifecycle.antt =====
-- crates/application/src/lifecycle.rs: the recovery marker and the freshness of one account.
use tersa_app.Prelude.{Option, none, some, if◌then◌else◌}
use tersa_app.Prelude.Int.{ℤ, is_negative}

pub data DisconnectRecoveryState : Type 0 where
  incomplete_teardown : DisconnectRecoveryState
  revoke_unconfirmed : DisconnectRecoveryState

pub record AccountLifecycleMetadata : Type 0 where
  pub recovery : Option DisconnectRecoveryState
  pub last_successful_sync_unix_millis : Option ℤ

-- `AccountLifecycleMetadata::default`
abbrev pub default : AccountLifecycleMetadata
default = record { recovery = none; last_successful_sync_unix_millis = none }

-- `AccountLifecycleMetadata::new`
unfoldable pub new_metadata :
    Option DisconnectRecoveryState → Option ℤ → Option AccountLifecycleMetadata
new_metadata recovery none =
    some (record { recovery = recovery; last_successful_sync_unix_millis = none })
new_metadata recovery (some value) =
    if is_negative value
    then none
    else some (record { recovery = recovery; last_successful_sync_unix_millis = some value })
