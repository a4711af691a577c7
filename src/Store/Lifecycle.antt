-- ===== src/Store/Lifecycle.antt =====
-- adapters/store-sqlcipher/src/lib.rs: the recovery marker and the freshness of the account.
pub mod Recovery
use tersa_app.Prelude.{ℕ, zero, suc, Bool, Option, none, some, if◌then◌else◌}
use tersa_app.Prelude.Int.{ℤ, is_negative}
use tersa_app.Prelude.Result.{Result, ok, err, ok_or}
use tersa_app.Prelude.Action.{Action, raise, lift, ◌>>=◌, ◌>>◌}
use tersa_app.Domain.Mailbox.{AccountId}
use tersa_app.Application.Mailbox.{MailboxStoreError, corrupted}
use tersa_app.Application.Lifecycle.{
  DisconnectRecoveryState, incomplete_teardown, revoke_unconfirmed, AccountLifecycleMetadata,
  default, new_metadata,
}
use tersa_app.Store.Schema.{Db, LifecycleRow}
use tersa_app.Store.Connection.{Store, checked_account, query, execute, with_connection}

-- the value bound to `?1`, after `NULLIF(?1, 0)`
unfoldable pub recovery_value : Option DisconnectRecoveryState → Option ℕ
recovery_value none = none
recovery_value (some incomplete_teardown) = some 1
recovery_value (some revoke_unconfirmed) = some 2

unfoldable pub decode_recovery :
    Option ℕ → Result MailboxStoreError (Option DisconnectRecoveryState)
decode_recovery none = ok none
decode_recovery (some (suc zero)) = ok (some incomplete_teardown)
decode_recovery (some (suc (suc zero))) = ok (some revoke_unconfirmed)
decode_recovery (some _) = err corrupted

unfoldable pub decode_freshness : Option ℤ → Result MailboxStoreError (Option ℤ)
decode_freshness none = ok none
decode_freshness (some value) = if is_negative value then err corrupted else ok (some value)

abbrev metadata_of :
    Result MailboxStoreError (Option DisconnectRecoveryState)
    → Result MailboxStoreError (Option ℤ)
    → Result MailboxStoreError AccountLifecycleMetadata
metadata_of (err e) freshness = err e
metadata_of (ok recovery) (err e) = err e
metadata_of (ok recovery) (ok freshness) = ok_or corrupted (new_metadata recovery freshness)

unfoldable pub decode_lifecycle :
    Option LifecycleRow → Result MailboxStoreError AccountLifecycleMetadata
unfolding decode_recovery decode_freshness new_metadata
decode_lifecycle none = ok default
decode_lifecycle (some r) =
    metadata_of (decode_recovery r.disconnect_recovery) (decode_freshness r.last_successful_sync)

unfoldable pub read_lifecycle_metadata : Action Store MailboxStoreError AccountLifecycleMetadata
unfolding decode_lifecycle
read_lifecycle_metadata =
    with_connection (do row ← query (λ d. d.lifecycle); lift (decode_lifecycle row))

-- `INSERT … ON CONFLICT(singleton) DO UPDATE SET disconnect_recovery = …`
unfoldable pub set_recovery : Option ℕ → Option LifecycleRow → Option LifecycleRow
set_recovery value none = some (record { disconnect_recovery = value; last_successful_sync = none })
set_recovery value (some r) = some (record r { disconnect_recovery = value })

-- `INSERT … ON CONFLICT(singleton) DO UPDATE SET last_successful_sync_unix_millis = …`
unfoldable pub set_freshness : ℤ → Option LifecycleRow → Option LifecycleRow
set_freshness value none =
    some (record { disconnect_recovery = none; last_successful_sync = some value })
set_freshness value (some r) = some (record r { last_successful_sync = some value })

unfoldable pub update_recovery :
    Option DisconnectRecoveryState → Action Store MailboxStoreError (Unit {0})
unfolding recovery_value set_recovery
update_recovery recovery =
    with_connection
      (execute (λ d. record d { lifecycle = set_recovery (recovery_value recovery) d.lifecycle }))

unfoldable pub record_successful_sync_at : ℤ → Action Store MailboxStoreError (Unit {0})
unfolding set_freshness
record_successful_sync_at unix_millis =
    if is_negative unix_millis
    then raise corrupted
    else with_connection
        (execute (λ d. record d { lifecycle = set_freshness unix_millis d.lifecycle }))

-- the methods of `AccountLifecycleStore`
unfoldable pub lifecycle_metadata :
    AccountId → Action Store MailboxStoreError AccountLifecycleMetadata
unfolding checked_account read_lifecycle_metadata
lifecycle_metadata account = do checked_account account; read_lifecycle_metadata

unfoldable pub mark_disconnect_started : AccountId → Action Store MailboxStoreError (Unit {0})
unfolding checked_account update_recovery
mark_disconnect_started account = do
  checked_account account
  update_recovery (some incomplete_teardown)

unfoldable pub mark_revoke_unconfirmed : AccountId → Action Store MailboxStoreError (Unit {0})
unfolding checked_account update_recovery
mark_revoke_unconfirmed account = do
  checked_account account
  update_recovery (some revoke_unconfirmed)

unfoldable pub clear_disconnect_recovery : AccountId → Action Store MailboxStoreError (Unit {0})
unfolding checked_account update_recovery
clear_disconnect_recovery account = do checked_account account; update_recovery none

unfoldable pub record_successful_sync : AccountId → ℤ → Action Store MailboxStoreError (Unit {0})
unfolding checked_account record_successful_sync_at
record_successful_sync account unix_millis = do
  checked_account account
  record_successful_sync_at unix_millis
