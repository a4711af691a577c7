-- ===== src/Store/Invariant.antt =====
-- Every operation of the store, and what any history of them keeps.
pub mod Keys
pub mod Reconcile
use tersa_app.Prelude.{
  ℕ, ◌≤◌, ◌≡◌, refl, Bool, true, false, not, Option, none, some, List, [], ◌∷◌, length, keep, map,
  ltb, any, arith, if◌then◌else◌, Bool-cases, inl, inr,
}
use tersa_app.Prelude.Int.{ℤ, is_negative}
use tersa_app.Prelude.Result.{Result, ok, err}
use tersa_app.Prelude.Action.{Action}
use tersa_app.Prelude.Text.{Text}
use tersa_app.Domain.Mailbox.{AccountId, MessageId, ThreadId, MessageEnvelope, Message}
use tersa_app.Application.Mailbox.{MailboxStoreError, max_store_limit}
use tersa_app.Application.Identity.{IdentityHash, IdentityReconcile}
use tersa_app.Application.Lifecycle.{DisconnectRecoveryState}
use tersa_app.Store.Schema.{Binding, Db, fresh}
use tersa_app.Store.Connection.{Store, statement, with_connection, checked_account, transaction}
use tersa_app.Store.Connection.Laws.{
  IsAtomic, statement-IsAtomic, transaction-IsAtomic, connection-IsAtomic, Implements, Meaning,
}
use tersa_app.Store.Messages.{
  cache_body, reconcile_body, upsert, put, reconcile, cache_if_present, mark_one_message_read,
  mark_one_thread_read,
}
use tersa_app.Store.Messages.Spec.{
  upsert-Implements, put-Implements, reconcile-Implements, cache_if_present-Implements, upsert_rows,
  reconcile_spec, cache_spec,
}
use tersa_app.Store.Messages.Rows.{
  keyed, keyed-upsert, keyed-prune, length-prune, keyed-map, keyed-update,
}
use tersa_app.Store.Identity.{
  reconcile_identity, purge_account, write_identity_hash, purge, write_identity_body, purge_body,
  clears_mailbox,
}
use tersa_app.Store.Identity.Fence.{write_identity_hash-Implements, purge-Implements}
use tersa_app.Store.Binding.{
  update_binding_row, store_broker_subject, store_refresh_token, clear_refresh_token,
}
use tersa_app.Store.Lifecycle.{update_recovery, record_successful_sync}

-- the operations that change the tables
pub data Operation : Type 0 where
  upserts : List MessageEnvelope → Operation
  puts : Message → Operation
  reconciles : AccountId → List MessageEnvelope → ℕ → IdentityHash → Operation
  caches : AccountId → Message → IdentityHash → Operation
  marks_message : MessageId → Operation
  marks_thread : ThreadId → Operation
  reconciles_identity :
      AccountId → IdentityHash → IdentityReconcile → Option IdentityHash → Operation
  purges : AccountId → Operation
  stores_subject : AccountId → Text → Operation
  stores_token : AccountId → Text → Operation
  clears_token : AccountId → Operation
  updates_recovery : Option DisconnectRecoveryState → Operation
  records_sync : AccountId → ℤ → Operation

abbrev pub outcome :
    {A : Type 0} → Result MailboxStoreError A × Store → Option MailboxStoreError × Store
outcome (ok a, s) = (none, s)
outcome (err e, s) = (some e, s)

-- one operation: the error, if it failed, and the store afterwards
unfoldable pub run : Operation → Store → Option MailboxStoreError × Store
run (upserts es) s = outcome (upsert es s)
run (puts m) s = outcome (put m s)
run (reconciles a es n f) s = outcome (reconcile a es n f s)
run (caches a m f) s = outcome (cache_if_present a m f s)
run (marks_message id) s = outcome (mark_one_message_read id s)
run (marks_thread id) s = outcome (mark_one_thread_read id s)
run (reconciles_identity a h r x) s = outcome (reconcile_identity a h r x s)
run (purges a) s = outcome (purge_account a s)
run (stores_subject a t) s = outcome (store_broker_subject a t s)
run (stores_token a t) s = outcome (store_refresh_token a t s)
run (clears_token a) s = outcome (clear_refresh_token a s)
run (updates_recovery r) s = outcome (update_recovery r s)
run (records_sync a t) s = outcome (record_successful_sync a t s)

outcome_atomic :
    {A : Type 0} (m : Action Store MailboxStoreError A)
    → IsAtomic m
    → (s : Store) (e : MailboxStoreError) → (outcome (m s)).0 ≡ some e
    → (outcome (m s)).1.db ≡ s.db
outcome_atomic m atomic s e h = ground (arith, atomic s e)

transacted-IsAtomic :
    {A : Type 0} (body : Action Store MailboxStoreError A)
    → IsAtomic (with_connection (transaction body))
transacted-IsAtomic body = connection-IsAtomic _ (transaction-IsAtomic body)

reconcile-IsAtomic :
    (a : AccountId) (es : List MessageEnvelope) (n : ℕ) (f : IdentityHash)
    → IsAtomic (reconcile a es n f)
unfolding reconcile
reconcile-IsAtomic a es n f s e h =
    ground (arith, transacted-IsAtomic (reconcile_body a es n f) s e)

upsert-IsAtomic : (es : List MessageEnvelope) → IsAtomic (upsert es)
unfolding upsert
upsert-IsAtomic es = transacted-IsAtomic _

put-IsAtomic : (m : Message) → IsAtomic (put m)
unfolding put
put-IsAtomic m = transacted-IsAtomic _

cache-IsAtomic :
    (a : AccountId) (m : Message) (f : IdentityHash) → IsAtomic (cache_if_present a m f)
unfolding cache_if_present with_connection
cache-IsAtomic a m f s e h = ground (arith, transaction-IsAtomic (cache_body a m f) s e)

mark_message-IsAtomic : (id : MessageId) → IsAtomic (mark_one_message_read id)
unfolding mark_one_message_read
mark_message-IsAtomic id = connection-IsAtomic _ (statement-IsAtomic _)

mark_thread-IsAtomic : (id : ThreadId) → IsAtomic (mark_one_thread_read id)
unfolding mark_one_thread_read
mark_thread-IsAtomic id = connection-IsAtomic _ (statement-IsAtomic _)

pub identity-IsAtomic :
    (a : AccountId) (h : IdentityHash) (r : IdentityReconcile) (x : Option IdentityHash)
    → IsAtomic (reconcile_identity a h r x)
unfolding reconcile_identity
identity-IsAtomic a h r x s e p =
    ground (arith, transacted-IsAtomic (write_identity_body a h (clears_mailbox r) x) s e)

purge-IsAtomic : (a : AccountId) → IsAtomic (purge_account a)
unfolding purge_account
purge-IsAtomic a s e p = ground (arith, transacted-IsAtomic (purge_body a) s e)

-- the update of the binding row: it changes nothing unless it changes that row
update_binding_row-IsAtomic :
    (a : AccountId) (f : Binding → Binding) → IsAtomic (update_binding_row a f)
unfolding update_binding_row with_connection statement
update_binding_row-IsAtomic a f s e h = ground arith

subject-IsAtomic : (a : AccountId) (t : Text) → IsAtomic (store_broker_subject a t)
unfolding store_broker_subject with_connection statement
subject-IsAtomic a t s e h = ground arith

token-IsAtomic : (a : AccountId) (t : Text) → IsAtomic (store_refresh_token a t)
unfolding store_refresh_token with_connection statement
token-IsAtomic a t s e h = ground arith

clear_token-IsAtomic : (a : AccountId) → IsAtomic (clear_refresh_token a)
unfolding clear_refresh_token with_connection statement
clear_token-IsAtomic a s e h = ground arith

recovery-IsAtomic : (r : Option DisconnectRecoveryState) → IsAtomic (update_recovery r)
unfolding update_recovery
recovery-IsAtomic r = connection-IsAtomic _ (statement-IsAtomic _)

sync-IsAtomic : (a : AccountId) (t : ℤ) → IsAtomic (record_successful_sync a t)
unfolding record_successful_sync with_connection statement
sync-IsAtomic a t s e h = ground arith

-- An operation that fails, for whatever reason, leaves every table as it was.
pub run_atomic :
    (op : Operation) (s : Store) (e : MailboxStoreError)
    → (run op s).0 ≡ some e
    → (run op s).1.db ≡ s.db
unfolding run
run_atomic (upserts es) = outcome_atomic _ (upsert-IsAtomic es)
run_atomic (puts m) = outcome_atomic _ (put-IsAtomic m)
run_atomic (reconciles a es n f) = outcome_atomic _ (reconcile-IsAtomic a es n f)
run_atomic (caches a m f) = outcome_atomic _ (cache-IsAtomic a m f)
run_atomic (marks_message id) = outcome_atomic _ (mark_message-IsAtomic id)
run_atomic (marks_thread id) = outcome_atomic _ (mark_thread-IsAtomic id)
run_atomic (reconciles_identity a h r x) = outcome_atomic _ (identity-IsAtomic a h r x)
run_atomic (purges a) = outcome_atomic _ (purge-IsAtomic a)
run_atomic (stores_subject a t) = outcome_atomic _ (subject-IsAtomic a t)
run_atomic (stores_token a t) = outcome_atomic _ (token-IsAtomic a t)
run_atomic (clears_token a) = outcome_atomic _ (clear_token-IsAtomic a)
run_atomic (updates_recovery r) = outcome_atomic _ (recovery-IsAtomic r)
run_atomic (records_sync a t) = outcome_atomic _ (sync-IsAtomic a t)
