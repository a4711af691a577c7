-- ===== src/Application/SyncPolicy.antt =====
-- crates/application/src/sync.rs: the policy, the failures and the progress of one snapshot.
use tersa_app.Prelude.{ℕ, ◌+◌, ◌%◌, Bool, false, ltb, if◌then◌else◌}
use tersa_app.Prelude.Tests.{◌==◌}
use tersa_app.Prelude.Result.{Result, ok, err}
use tersa_app.Application.Mailbox.{RemoteMailboxError, MailboxStoreError, identity_changed}

abbrev pub max_snapshot_pages : ℕ
max_snapshot_pages = 1000

pub data SyncPolicyError : Type 0 where
  zero_page_limit : SyncPolicyError
  page_limit_too_large : SyncPolicyError
  body_limit_exceeds_keep_limit : SyncPolicyError

pub record SyncPolicy : Type 0 where
  pub page_size : ℕ
  pub max_pages : ℕ
  pub keep_limit : ℕ
  pub full_body_limit : ℕ

-- `SyncPolicy::new`
unfoldable pub new_policy : ℕ → ℕ → ℕ → ℕ → Result SyncPolicyError SyncPolicy
new_policy page_size max_pages keep_limit full_body_limit =
    if max_pages == 0
    then err zero_page_limit
    else if ltb max_snapshot_pages max_pages
    then err page_limit_too_large
    else if ltb keep_limit full_body_limit
    then err body_limit_exceeds_keep_limit
    else ok (record {
      page_size = page_size;
      max_pages = max_pages;
      keep_limit = keep_limit;
      full_body_limit = full_body_limit;
    })

pub data SyncProtocolError : Type 0 where
  oversized_page : SyncProtocolError
  repeated_continuation : SyncProtocolError
  conflicting_duplicate : SyncProtocolError
  mismatched_fetched_message : SyncProtocolError

pub data SyncFailureSource : Type 0 where
  remote : RemoteMailboxError → SyncFailureSource
  store : MailboxStoreError → SyncFailureSource
  protocol : SyncProtocolError → SyncFailureSource
  single_flight : SyncFailureSource
  identity_fenced : SyncFailureSource

pub record SyncProgress : Type 0 where
  pub pages : ℕ
  pub envelopes : ℕ
  pub body_requests : ℕ
  pub bodies_cached : ℕ
  pub bodies_skipped : ℕ
  pub snapshot_truncated : Bool

-- `SyncProgress::default()`
abbrev pub no_progress : SyncProgress
no_progress = record {
  pages = 0;
  envelopes = 0;
  body_requests = 0;
  bodies_cached = 0;
  bodies_skipped = 0;
  snapshot_truncated = false;
}

pub record SyncFailure : Type 0 where
  pub source : SyncFailureSource
  pub progress : SyncProgress

abbrev pub failure : SyncFailureSource → SyncProgress → SyncFailure
failure source progress = record { source = source; progress = progress }

-- `counter += 1` on a `u16`
abbrev pub increment : ℕ → ℕ
increment n = (n + 1) % 65536

unfoldable pub store_failure_source : MailboxStoreError → SyncFailureSource
store_failure_source identity_changed = identity_fenced
store_failure_source other = store other
