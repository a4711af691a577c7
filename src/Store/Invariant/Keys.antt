-- ===== src/Store/Invariant/Keys.antt =====
-- The primary key under any history of operations, and the size of the table.
use tersa_app.Prelude.{
  ℕ, ◌≡◌, refl, Bool, true, Option, none, some, List, [], ◌∷◌, length, ltb, arith, Bool-cases, inl,
  inr,
}
use tersa_app.Prelude.Result.{Result, ok, err}
use tersa_app.Prelude.Action.{Action}
use tersa_app.Prelude.Int.{ℤ}
use tersa_app.Prelude.Text.{Text, text_eq}
use tersa_app.Application.Lifecycle.{DisconnectRecoveryState}
use tersa_app.Domain.Mailbox.{AccountId, MessageId, ThreadId, MessageEnvelope, Message}
use tersa_app.Application.Mailbox.{MailboxStoreError, max_store_limit}
use tersa_app.Application.Identity.{IdentityHash, IdentityReconcile}
use tersa_app.Store.Schema.{Row, Db}
use tersa_app.Store.Connection.{Store, statement, with_connection}
use tersa_app.Store.Connection.Laws.{IsAtomic, Implements, Meaning}
use tersa_app.Store.Sql.{has_id, upsert_row, prune, update_row, mark_read_where}
use tersa_app.Store.Messages.{
  upsert, put, reconcile, cache_if_present, mark_one_message_read, mark_one_thread_read,
  recorded_identity,
}
use tersa_app.Store.Messages.Spec.{
  upsert-Implements, put-Implements, reconcile-Implements, cache_if_present-Implements, upsert_rows,
  reconcile_spec, cache_spec, fenced, survivors_of,
}
use tersa_app.Store.Messages.Rows.{keyed, keyed-upsert, keyed-prune, keyed-map, keyed-update}
use tersa_app.Store.Identity.{
  reconcile_identity, write_identity_hash, purge_account, clears_mailbox, write_identity_body,
  purge_body,
}
use tersa_app.Store.Identity.Fence.{
  write_identity_hash-Implements, purge-Implements, write_identity_spec, purge_spec, purged,
}
use tersa_app.Store.Binding.{store_broker_subject, store_refresh_token, clear_refresh_token}
use tersa_app.Store.Lifecycle.{update_recovery, record_successful_sync}
use tersa_app.Store.Invariant.{
  Operation, upserts, puts, reconciles, caches, marks_message, marks_thread, reconciles_identity,
  purges, stores_subject, stores_token, clears_token, updates_recovery, records_sync, run, outcome,
  reconcile-IsAtomic, cache-IsAtomic, upsert-IsAtomic, put-IsAtomic, transacted-IsAtomic,
}

abbrev pub IsKeyed : Db → Type 0
IsKeyed d = keyed d.messages ≡ true

module _ {A : Type 0} (m : Action Store MailboxStoreError A) (f : Meaning A) where
  -- an invariant of what an operation means holds after it, whether it succeeds or fails
  keeps :
      IsAtomic m
      → Implements m f
      → ((d d' : Db) (a : A) → f d ≡ ok (a, d') → IsKeyed d → IsKeyed d')
      → (s : Store) → IsKeyed s.db
      → IsKeyed (m s).1.db
  keeps atomic i step s k = go (m s).0 refl
    where
      go : (r : Result MailboxStoreError A) → (m s).0 ≡ r → IsKeyed (m s).1.db
      go (ok a) e = step s.db (m s).1.db a (i.sound s a e) k
      go (err x) e = rw (atomic s x e) k

pub keyed-upserts :
    (es : List MessageEnvelope) (rows : List Row)
    → keyed rows ≡ true
    → keyed (upsert_rows es rows) ≡ true
unfolding upsert_rows
keyed-upserts [] rows h = h
keyed-upserts (e ∷ es) rows h =
    keyed-upserts es (upsert_row e none rows) (keyed-upsert e none rows h)

-- what the specification of `reconcile` says, where it succeeds
pub reconcile_success :
    (account : AccountId) (es : List MessageEnvelope) (n : ℕ) (fence : IdentityHash) (d d' : Db)
    (ids : List MessageId)
    → reconcile_spec account es n fence d ≡ ok (ids, d')
    → (d'.messages ≡ prune n (upsert_rows es d.messages))
      × (ids ≡ survivors_of [] es d'.messages)
      × (fenced (recorded_identity account d) fence ≡ ok tt)
      × (d'.identity ≡ d.identity)
unfolding reconcile_spec
reconcile_success account es n fence d d' ids h =
    go (fenced (recorded_identity account d) fence) refl
  where
    go :
        (r : Result MailboxStoreError (Unit {0}))
        → fenced (recorded_identity account d) fence ≡ r
        → (d'.messages ≡ prune n (upsert_rows es d.messages))
          × (ids ≡ survivors_of [] es d'.messages)
          × (fenced (recorded_identity account d) fence ≡ ok tt)
          × (d'.identity ≡ d.identity)
    go (ok u) e = ground arith
    go (err x) e = ground arith

cache_success :
    (account : AccountId) (m : Message) (fence : IdentityHash) (d d' : Db) (b : Bool)
    → cache_spec account m fence d ≡ ok (b, d')
    → (d'.messages ≡ (update_row m.envelope m.content d.messages).1)
      × (fenced (recorded_identity account d) fence ≡ ok tt)
unfolding cache_spec
cache_success account m fence d d' b h = go (fenced (recorded_identity account d) fence) refl
  where
    go :
        (r : Result MailboxStoreError (Unit {0}))
        → fenced (recorded_identity account d) fence ≡ r
        → (d'.messages ≡ (update_row m.envelope m.content d.messages).1)
          × (fenced (recorded_identity account d) fence ≡ ok tt)
    go (ok u) e = ground arith
    go (err x) e = ground arith

reconcile_keeps :
    (account : AccountId) (es : List MessageEnvelope) (n : ℕ) (fence : IdentityHash) (s : Store)
    → IsKeyed s.db
    → IsKeyed (reconcile account es n fence s).1.db
reconcile_keeps account es n fence s k = elim (Bool-cases (ltb max_store_limit (length es))) [
  | inl long ↦ unfold reconcile in ground arith
  | inr short ↦
      keeps (reconcile account es n fence) (reconcile_spec account es n fence)
        (reconcile-IsAtomic account es n fence)
        (reconcile-Implements account es n fence (ground arith))
        (λ d d' ids h kd.
          rw (reconcile_success account es n fence d d' ids h).0
            (keyed-prune n (upsert_rows es d.messages) (keyed-upserts es d.messages kd)))
        s k
]

cache_keeps :
    (account : AccountId) (m : Message) (fence : IdentityHash) (s : Store)
    → IsKeyed s.db
    → IsKeyed (cache_if_present account m fence s).1.db
cache_keeps account m fence =
    keeps _ (cache_spec account m fence) (cache-IsAtomic account m fence)
      (cache_if_present-Implements account m fence)
      (λ d d' b h kd.
        rw (cache_success account m fence d d' b h).0
          (keyed-update m.envelope m.content d.messages kd))

upsert_keeps : (es : List MessageEnvelope) (s : Store) → IsKeyed s.db → IsKeyed (upsert es s).1.db
upsert_keeps es =
    keeps _ _ (upsert-IsAtomic es) (upsert-Implements es)
      (λ d d' a h kd. ground (arith, keyed-upserts es d.messages kd))

put_keeps : (m : Message) (s : Store) → IsKeyed s.db → IsKeyed (put m s).1.db
put_keeps m =
    keeps _ _ (put-IsAtomic m) (put-Implements m)
      (λ d d' a h kd. ground (arith, keyed-upsert m.envelope (some m.content) d.messages kd))

keyed-mark_read : (p : Row → Bool) (rows : List Row) → keyed (mark_read_where p rows) ≡ keyed rows
unfolding mark_read_where
keyed-mark_read p rows = keyed-map _ (λ r. ground arith) rows

mark_message_keeps :
    (id : MessageId) (s : Store) → IsKeyed s.db → IsKeyed (mark_one_message_read id s).1.db
unfolding mark_one_message_read with_connection statement
mark_message_keeps id s k = ground (arith, keyed-mark_read (has_id id) s.db.messages)

mark_thread_keeps :
    (id : ThreadId) (s : Store) → IsKeyed s.db → IsKeyed (mark_one_thread_read id s).1.db
unfolding mark_one_thread_read with_connection statement
mark_thread_keeps id s k =
    ground (arith, keyed-mark_read (λ r. text_eq r.thread_id id) s.db.messages)

identity_step :
    (a : AccountId) (h : IdentityHash) (b : Bool) (x : Option IdentityHash) (d d' : Db)
    (u : Unit {0})
    → write_identity_spec a h b x d ≡ ok (u, d')
    → IsKeyed d
    → IsKeyed d'
unfolding write_identity_spec
identity_step a h b x d d' u p k = go (recorded_identity a d) refl
  where
    go :
        (r : Result MailboxStoreError (Option IdentityHash))
        → recorded_identity a d ≡ r
        → IsKeyed d'
    go (ok v) e = unfold keyed in ground arith
    go (err v) e = ground arith

purge_step :
    (a : AccountId) (d d' : Db) (u : Unit {0})
    → purge_spec a d ≡ ok (u, d')
    → IsKeyed d
    → IsKeyed d'
unfolding purge_spec purged keyed
purge_step a d d' u p k = ground arith

identity_keeps :
    (a : AccountId) (h : IdentityHash) (r : IdentityReconcile) (x : Option IdentityHash) (s : Store)
    → IsKeyed s.db
    → IsKeyed (reconcile_identity a h r x s).1.db
unfolding reconcile_identity
identity_keeps a h r x s k = ground (
  arith,
  keeps _ _ (transacted-IsAtomic (write_identity_body a h (clears_mailbox r) x))
      (unfold write_identity_hash in write_identity_hash-Implements a h (clears_mailbox r) x)
      (identity_step a h (clears_mailbox r) x) s k,
)

purge_keeps : (a : AccountId) (s : Store) → IsKeyed s.db → IsKeyed (purge_account a s).1.db
unfolding purge_account
purge_keeps a s k =
    ground (
      arith,
      keeps _ _ (transacted-IsAtomic (purge_body a)) (purge-Implements a) (purge_step a) s k,
    )

-- the operations on the other tables
subject_messages :
    (a : AccountId) (t : Text) (s : Store)
    → (store_broker_subject a t s).1.db.messages ≡ s.db.messages
unfolding store_broker_subject with_connection statement
subject_messages a t s = ground arith

token_messages :
    (a : AccountId) (t : Text) (s : Store)
    → (store_refresh_token a t s).1.db.messages ≡ s.db.messages
unfolding store_refresh_token with_connection statement
token_messages a t s = ground arith

clear_token_messages :
    (a : AccountId) (s : Store) → (clear_refresh_token a s).1.db.messages ≡ s.db.messages
unfolding clear_refresh_token with_connection statement
clear_token_messages a s = ground arith

recovery_messages :
    (r : Option DisconnectRecoveryState) (s : Store)
    → (update_recovery r s).1.db.messages ≡ s.db.messages
unfolding update_recovery with_connection statement
recovery_messages r s = ground arith

sync_messages :
    (a : AccountId) (t : ℤ) (s : Store)
    → (record_successful_sync a t s).1.db.messages ≡ s.db.messages
unfolding record_successful_sync with_connection statement
sync_messages a t s = ground arith

outcome_store : {A : Type 0} (x : Result MailboxStoreError A × Store) → (outcome x).1 ≡ x.1
outcome_store (ok a, s) = refl
outcome_store (err e, s) = refl

run-IsKeyed : (op : Operation) (s : Store) → IsKeyed s.db → IsKeyed (run op s).1.db
unfolding run
run-IsKeyed (upserts es) s k = rw (outcome_store (upsert es s)) (upsert_keeps es s k)
run-IsKeyed (puts m) s k = rw (outcome_store (put m s)) (put_keeps m s k)
run-IsKeyed (reconciles a es n f) s k =
    rw (outcome_store (reconcile a es n f s)) (reconcile_keeps a es n f s k)
run-IsKeyed (caches a m f) s k =
    rw (outcome_store (cache_if_present a m f s)) (cache_keeps a m f s k)
run-IsKeyed (marks_message id) s k =
    rw (outcome_store (mark_one_message_read id s)) (mark_message_keeps id s k)
run-IsKeyed (marks_thread id) s k =
    rw (outcome_store (mark_one_thread_read id s)) (mark_thread_keeps id s k)
run-IsKeyed (reconciles_identity a h r x) s k =
    rw (outcome_store (reconcile_identity a h r x s)) (identity_keeps a h r x s k)
run-IsKeyed (purges a) s k = rw (outcome_store (purge_account a s)) (purge_keeps a s k)
run-IsKeyed (stores_subject a t) s k =
    rw (outcome_store (store_broker_subject a t s), subject_messages a t s) k
run-IsKeyed (stores_token a t) s k =
    rw (outcome_store (store_refresh_token a t s), token_messages a t s) k
run-IsKeyed (clears_token a) s k =
    rw (outcome_store (clear_refresh_token a s), clear_token_messages a s) k
run-IsKeyed (updates_recovery r) s k =
    rw (outcome_store (update_recovery r s), recovery_messages r s) k
run-IsKeyed (records_sync a t) s k =
    rw (outcome_store (record_successful_sync a t s), sync_messages a t s) k

pub run_all : List Operation → Store → Store
run_all [] s = s
run_all (op ∷ ops) s = run_all ops (run op s).1

-- After any history of operations, failing or not, the identifiers of the stored messages are
-- distinct and none is NULL, if they were so before.
pub run_all-IsKeyed : (ops : List Operation) (s : Store) → IsKeyed s.db → IsKeyed (run_all ops s).db
unfolding run_all
run_all-IsKeyed [] s k = k
run_all-IsKeyed (op ∷ ops) s k = run_all-IsKeyed ops (run op s).1 (run-IsKeyed op s k)
