-- ===== src/Store/Lifecycle/Recovery.antt =====
-- The recovery marker and the freshness do not disturb one another.
use tersa_app.Prelude.{◌≡◌, Option, some, arith}
use tersa_app.Prelude.Int.{ℤ}
use tersa_app.Prelude.Result.{ok}
use tersa_app.Application.Lifecycle.{DisconnectRecoveryState, AccountLifecycleMetadata}
use tersa_app.Store.Connection.{Store, statement, with_connection}
use tersa_app.Store.Lifecycle.{update_recovery, record_successful_sync_at, read_lifecycle_metadata}
use tersa_app.Store.Binding.Tokens.{calm}

-- Over a lifecycle row that reads well, recording a recovery state, or clearing it, changes that
-- state and leaves the freshness.
pub read-update_recovery :
    (recovery : Option DisconnectRecoveryState) (m : AccountLifecycleMetadata) (s : Store)
    → (read_lifecycle_metadata (calm s)).0 ≡ ok m
    → (update_recovery recovery s).0 ≡ ok tt
    → (read_lifecycle_metadata (calm (update_recovery recovery s).1)).0
      ≡ ok (record m { recovery = recovery })
unfolding update_recovery read_lifecycle_metadata with_connection statement
read-update_recovery recovery m s h k = ground arith

-- Over a lifecycle row that reads well, recording a successful sync changes the freshness to its
-- time and leaves the recovery state.
pub read-record_successful_sync :
    (millis : ℤ) (m : AccountLifecycleMetadata) (s : Store)
    → (read_lifecycle_metadata (calm s)).0 ≡ ok m
    → (record_successful_sync_at millis s).0 ≡ ok tt
    → (read_lifecycle_metadata (calm (record_successful_sync_at millis s).1)).0
      ≡ ok (record m { last_successful_sync_unix_millis = some millis })
unfolding record_successful_sync_at read_lifecycle_metadata with_connection statement
read-record_successful_sync millis m s h k = ground arith
