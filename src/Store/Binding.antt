-- ===== src/Store/Binding.antt =====
-- adapters/store-sqlcipher/src/lib.rs: the broker subject and the refresh token of the account.
pub mod Tokens
use tersa_app.Prelude.{ℕ, Bool, not, ◌&&◌, Option, none, some, in_range, all, length, if◌then◌else◌}
use tersa_app.Prelude.Tests.{◌==◌}
use tersa_app.Prelude.Result.{Result, ok, err}
use tersa_app.Prelude.Action.{Action, raise, lift, ◌>>=◌, ◌>>◌}
use tersa_app.Prelude.Text.{Text, bytes, is_ascii_graphic, text_eq}
use tersa_app.Domain.Mailbox.{AccountId}
use tersa_app.Application.Mailbox.{MailboxStoreError, storage, corrupted}
use tersa_app.Store.Schema.{Db, Binding}
use tersa_app.Store.Connection.{Store, checked_account, query, with_connection}
use tersa_app.Store.Identity.{update_binding, bind_statement}

unfoldable pub is_valid_broker_subject : Text → Bool
is_valid_broker_subject subject =
    in_range 1 255 (length (bytes subject)) && all is_ascii_graphic (bytes subject)

unfoldable pub is_valid_refresh_token : Text → Bool
is_valid_refresh_token token =
    in_range 1 4096 (length (bytes token)) && all is_ascii_graphic (bytes token)

-- an update of the binding row that must change exactly that row
unfoldable pub update_binding_row :
    AccountId → (Binding → Binding) → Action Store MailboxStoreError (Unit {0})
unfolding update_binding
update_binding_row account f =
    with_connection
      (do changed ← bind_statement account f; lift (if changed == 1 then ok tt else err corrupted))

unfoldable pub store_broker_subject : AccountId → Text → Action Store MailboxStoreError (Unit {0})
unfolding checked_account is_valid_broker_subject update_binding_row
store_broker_subject account subject = do
  checked_account account
  if not (is_valid_broker_subject subject)
      then raise storage
      else update_binding_row account (λ b. record b { broker_subject = some subject })

unfoldable pub update_refresh_token :
    AccountId → Option Text → Action Store MailboxStoreError (Unit {0})
unfolding update_binding_row
update_refresh_token account token =
    update_binding_row account (λ b. record b { refresh_token = token })

unfoldable pub store_refresh_token : AccountId → Text → Action Store MailboxStoreError (Unit {0})
unfolding checked_account is_valid_refresh_token update_refresh_token
store_refresh_token account token = do
  checked_account account
  if not (is_valid_refresh_token token)
      then raise storage
      else update_refresh_token account (some token)

unfoldable pub clear_refresh_token : AccountId → Action Store MailboxStoreError (Unit {0})
unfolding checked_account update_refresh_token
clear_refresh_token account = do checked_account account; update_refresh_token account none

-- a nullable text column of the binding row, checked on the way out
unfoldable pub checked_column :
    AccountId
    → (Binding → Option Text)
    → (Text → Bool)
    → Option Binding
    → Result MailboxStoreError (Option Text)
checked_column account column is_valid none = err corrupted
checked_column account column is_valid (some b) =
    if not (text_eq b.account_id account) then err corrupted else elim (column b) [
      | none ↦ ok none
      | some value ↦ if not (is_valid value) then err corrupted else ok (some value)
    ]

unfoldable pub load_column :
    AccountId
    → (Binding → Option Text)
    → (Text → Bool)
    → Action Store MailboxStoreError (Option Text)
unfolding checked_account checked_column
load_column account column is_valid = do
  checked_account account
  with_connection
      (do row ← query (λ d. d.binding); lift (checked_column account column is_valid row))

unfoldable pub load_broker_subject : AccountId → Action Store MailboxStoreError (Option Text)
unfolding load_column is_valid_broker_subject
load_broker_subject account = load_column account (λ b. b.broker_subject) is_valid_broker_subject

unfoldable pub load_refresh_token : AccountId → Action Store MailboxStoreError (Option Text)
unfolding load_column is_valid_refresh_token
load_refresh_token account = load_column account (λ b. b.refresh_token) is_valid_refresh_token
