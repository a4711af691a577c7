-- ===== src/Store/Schema.antt =====
-- adapters/store-sqlcipher/migrations/0001_account_mailbox.sql: the four tables. A column has the
-- type that the schema declares; `message_id` may be NULL, which a TEXT PRIMARY KEY allows.
use tersa_app.Prelude.{ℕ, Option, none, some, List, []}
use tersa_app.Prelude.Int.{ℤ}
use tersa_app.Prelude.Text.{Text}

-- one row of `messages`
pub record Row : Type 0 where
  pub message_id : Option Text
  pub thread_id : Text
  pub sender : Text
  pub subject : Text
  pub preview : Text
  pub received_at : ℤ
  pub unread : ℤ
  pub content : Option (List ℕ)

-- the row of `account_binding`
pub record Binding : Type 0 where
  pub account_id : Text
  pub broker_subject : Option Text
  pub refresh_token : Option Text

-- one row of `account_identity`
pub record IdentityRow : Type 0 where
  pub account_id : Text
  pub identity_hash : List ℕ
  pub algo_version : ℕ

-- the row of `account_lifecycle`
pub record LifecycleRow : Type 0 where
  pub disconnect_recovery : Option ℕ
  pub last_successful_sync : Option ℤ

pub record Db : Type 0 where
  pub binding : Option Binding
  pub messages : List Row
  pub identity : List IdentityRow
  pub lifecycle : Option LifecycleRow

-- what `migrate_fresh` leaves in a new database of one account
abbrev pub fresh : Text → Db
fresh account = record {
  binding = some (record { account_id = account; broker_subject = none; refresh_token = none });
  messages = [];
  identity = [];
  lifecycle = none;
}
