-- ===== src/Store/Identity.antt =====
-- adapters/store-sqlcipher/src/lib.rs: the recorded account identity, its compare-and-set, and the
-- purge of the account.
pub mod Fence
use tersa_app.Prelude.{
  ℕ, Bool, true, false, not, ◌&&◌, Option, none, some, List, [], ◌∷◌, keep, if◌then◌else◌,
}
use tersa_app.Prelude.Tests.{◌==◌}
use tersa_app.Prelude.Result.{Result, ok, err}
use tersa_app.Prelude.Action.{Action, pure, lift, ◌>>=◌, ◌>>◌}
use tersa_app.Prelude.Text.{text_eq}
use tersa_app.Domain.Mailbox.{AccountId}
use tersa_app.Application.Mailbox.{MailboxStoreError, corrupted, identity_raced}
use tersa_app.Application.Identity.{
  IdentityHash, IdentityReconcile, record_only, clear_mailbox_and_record, hash_eq,
}
use tersa_app.Store.Schema.{Db, Binding, IdentityRow, LifecycleRow}
use tersa_app.Store.Connection.{
  Store, checked_account, statement, query, execute, transaction, with_connection,
}
use tersa_app.Store.Messages.{identity_algo_version, recorded_identity, read_recorded_identity}

unfoldable pub matches_expected : Option IdentityHash → Option IdentityHash → Bool
matches_expected none none = true
matches_expected (some current) (some expected) = hash_eq current expected
matches_expected _ _ = false

unfoldable pub assert_identity_matches_expected :
    AccountId → Option IdentityHash → Action Store MailboxStoreError (Unit {0})
unfolding matches_expected
assert_identity_matches_expected account expected = do
  recorded ← read_recorded_identity account
  lift (if matches_expected recorded expected then ok tt else err identity_raced)

-- `INSERT INTO account_identity … ON CONFLICT(account_id) DO UPDATE …`
unfoldable pub record_hash : AccountId → IdentityHash → List IdentityRow → List IdentityRow
record_hash account hash [] =
    record { account_id = account; identity_hash = hash; algo_version = identity_algo_version } ∷ []
record_hash account hash (r ∷ rs) =
    if text_eq r.account_id account
    then record r { identity_hash = hash; algo_version = identity_algo_version } ∷ rs
    else r ∷ record_hash account hash rs

-- `UPDATE account_lifecycle SET last_successful_sync_unix_millis = NULL WHERE singleton = 1`
abbrev pub forget_freshness : Option LifecycleRow → Option LifecycleRow
forget_freshness none = none
forget_freshness (some r) = some (record r { last_successful_sync = none })

-- what `clear_mailbox` adds
unfoldable pub clear_mailbox_rows : Action Store MailboxStoreError (Unit {0})
clear_mailbox_rows = do
  execute (λ d. record d { messages = [] })
  execute (λ d. record d { lifecycle = forget_freshness d.lifecycle })

unfoldable pub write_identity_body :
    AccountId
    → IdentityHash
    → Bool
    → Option IdentityHash
    → Action Store MailboxStoreError (Unit {0})
unfolding assert_identity_matches_expected clear_mailbox_rows record_hash
write_identity_body account fresh clear_mailbox expected = do
  assert_identity_matches_expected account expected
  if clear_mailbox then clear_mailbox_rows else pure tt
  execute (λ d. record d { identity = record_hash account fresh d.identity })

unfoldable pub write_identity_hash :
    AccountId
    → IdentityHash
    → Bool
    → Option IdentityHash
    → Action Store MailboxStoreError (Unit {0})
write_identity_hash account fresh clear_mailbox expected =
    with_connection (transaction (write_identity_body account fresh clear_mailbox expected))

unfoldable pub read_identity_hash : AccountId → Action Store MailboxStoreError (Option IdentityHash)
read_identity_hash account = with_connection (read_recorded_identity account)

-- `AccountIdentityStore::load_identity`
unfoldable pub load_identity : AccountId → Action Store MailboxStoreError (Option IdentityHash)
unfolding checked_account read_identity_hash
load_identity account = do checked_account account; read_identity_hash account

abbrev pub clears_mailbox : IdentityReconcile → Bool
clears_mailbox clear_mailbox_and_record = true
clears_mailbox record_only = false

-- `AccountIdentityStore::reconcile_identity`
unfoldable pub reconcile_identity :
    AccountId
    → IdentityHash
    → IdentityReconcile
    → Option IdentityHash
    → Action Store MailboxStoreError (Unit {0})
unfolding checked_account write_identity_hash
reconcile_identity account fresh action expected = do
  checked_account account
  write_identity_hash account fresh (clears_mailbox action) expected

-- `UPDATE account_binding SET … WHERE singleton = 1 AND account_id = ?`, with the rows changed
unfoldable pub update_binding :
    AccountId → (Binding → Binding) → Option Binding → ℕ × Option Binding
update_binding account f none = (0, none)
update_binding account f (some b) =
    if text_eq b.account_id account then (1, some (f b)) else (0, some b)

abbrev pub bind_statement : AccountId → (Binding → Binding) → Action Store MailboxStoreError ℕ
bind_statement account f =
    statement
      (λ d. let (n, b) = update_binding account f d.binding in (n, record d { binding = b }))

unfoldable pub purge_body : AccountId → Action Store MailboxStoreError (Unit {0})
unfolding update_binding
purge_body account = do
  execute (λ d. record d { messages = [] })
  execute (λ d. record d { identity = keep (λ r. not (text_eq r.account_id account)) d.identity })
  cleared ← bind_statement account (λ b. record b { broker_subject = none; refresh_token = none })
  lift (if not (cleared == 1) then err corrupted else ok tt)
  execute (λ d. record d { lifecycle = forget_freshness d.lifecycle })

unfoldable pub purge : AccountId → Action Store MailboxStoreError (Unit {0})
purge account = with_connection (transaction (purge_body account))

-- `AccountPurgeStore::purge_account`
unfoldable pub purge_account : AccountId → Action Store MailboxStoreError (Unit {0})
unfolding checked_account purge
purge_account account = do checked_account account; purge account
