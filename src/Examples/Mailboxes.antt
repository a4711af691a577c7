-- ===== src/Examples/Mailboxes.antt =====
-- The theorems on the mailbox store at concrete inputs.
use tersa_app.Prelude.Text.{encode}
use tersa_app.Prelude.Text.{bytes}
use tersa_app.Prelude.{
  ℕ, ◌≤◌, ◌≡◌, refl, true, false, none, some, List, [], ◌∷◌, length, all, arith, inl, inr, ap,
  subst,
}
use tersa_app.Prelude.Int.{pos}
use tersa_app.Prelude.Result.{ok}
use tersa_app.Prelude.Text.{Text, text_eq}
use tersa_app.Domain.Mailbox.{
  AccountId, MessageEnvelope, Message, new_identifier, new_header_text, new_timestamp,
}
use tersa_app.Application.Mailbox.{storage}
use tersa_app.Application.Identity.{IdentityHash}
use tersa_app.Application.Lifecycle.{incomplete_teardown, AccountLifecycleMetadata}
use tersa_app.Store.Schema.{Row, Db}
use tersa_app.Store.Connection.{
  Store, other_failure, store_error, statement, finish, transaction, with_connection,
}
use tersa_app.Store.Sql.{
  inserted_row, upsert_row, prune, exists_id, has_null_id, newest_first, update_row,
}
use tersa_app.Store.Messages.{
  recorded_identity, read_recorded_identity, write_envelope, put, reconcile_body, reconcile,
  cache_body, cache_if_present,
}
use tersa_app.Store.Messages.Spec.{reconcile_spec, upsert_rows, survivors_of}
use tersa_app.Store.Messages.Rows.{keyed}
use tersa_app.Store.Messages.Order.{In}
use tersa_app.Store.Messages.Retention.{prune_keeps_newest}
use tersa_app.Store.Reader.{get_complete_message, find_row}
use tersa_app.Store.Reader.RoundTrip.{IsEnvelope, still_unread, get-put_message}
use tersa_app.Store.Identity.{write_identity_body, write_identity_hash, purge_body, purge}
use tersa_app.Store.Identity.Fence.{write_identity_hash_lem, purge_spec}
use tersa_app.Store.Binding.{
  store_refresh_token, load_refresh_token, clear_refresh_token, store_broker_subject,
}
use tersa_app.Store.Binding.Tokens.{calm, load-store_refresh_token}
use tersa_app.Store.Lifecycle.{update_recovery, read_lifecycle_metadata, record_successful_sync_at}
use tersa_app.Store.Refinement.{
  cached_spec, reconcile_refines, reconcile_reaches, cache_refines, purge_refines,
}
use tersa_app.Store.Invariant.{upserts, puts, purges, run, run_atomic}
use tersa_app.Store.Invariant.Keys.{IsKeyed, run_all, run_all-IsKeyed}
use tersa_app.Store.Invariant.Reconcile.{distinct, reconcile_lem}

abbrev account : AccountId
account = 109 ∷ []

abbrev first_id : Text
first_id = 97 ∷ []

abbrev second_id : Text
second_id = 98 ∷ []

abbrev envelope_of : Text → ℕ → MessageEnvelope
envelope_of id time = record {
  message_id = id;
  thread_id = 116 ∷ [];
  from = [];
  subject = [];
  preview = [];
  received_at = pos time;
  unread = true;
}

abbrev first : MessageEnvelope
first = envelope_of first_id 5

abbrev second : MessageEnvelope
second = envelope_of second_id 9

abbrev message : Message
message = record { envelope = first; content = 1 ∷ 2 ∷ [] }

abbrev pub eight : List ℕ → List ℕ
eight tail = 7 ∷ 7 ∷ 7 ∷ 7 ∷ 7 ∷ 7 ∷ 7 ∷ 7 ∷ tail

abbrev pub hash_32 : IdentityHash
hash_32 = eight (eight (eight (eight [])))

-- one stored message, and an identity
abbrev tables : Db
tables = record {
  binding = some (record { account_id = account; broker_subject = none; refresh_token = none });
  messages = inserted_row first none ∷ [];
  identity = record { account_id = account; identity_hash = hash_32; algo_version = 2 } ∷ [];
  lifecycle = none;
}

abbrev store : Store
store = record { account = account; db = tables; faults = []; poisoned = false }

-- a store whose second statement fails
abbrev faulty : Store
faulty = record store { faults = none ∷ some other_failure ∷ [] }

-- a store whose last statements would fail
abbrev faulty_later : Store
faulty_later = record store {
  faults = none ∷ none ∷ none ∷ none ∷ none ∷ none ∷ none ∷ some other_failure ∷ [];
}

tables-IsKeyed : IsKeyed tables
unfolding keyed inserted_row exists_id
tables-IsKeyed = refl

faulty_put : (run (puts message) faulty).0 ≡ some storage
unfolding run put with_connection transaction statement write_envelope store_error finish
faulty_put = refl

run_atomic_example : (run (puts message) faulty).1.db ≡ tables
run_atomic_example = run_atomic (puts message) faulty storage faulty_put

run_all-IsKeyed_example :
    IsKeyed (run_all (upserts (second ∷ first ∷ []) ∷ puts message ∷ purges account ∷ []) faulty).db
run_all-IsKeyed_example =
    run_all-IsKeyed (upserts (second ∷ first ∷ []) ∷ puts message ∷ purges account ∷ []) faulty
      tables-IsKeyed

reconciled :
    reconcile_spec account (second ∷ []) 1 hash_32 tables
    ≡ ok (second_id ∷ [], record tables { messages = inserted_row second none ∷ [] })
unfolding reconcile_spec recorded_identity upsert_rows survivors_of upsert_row inserted_row prune
    text_eq
reconciled = refl

reconcile_reaches_example : reconcile account (second ∷ []) 1 hash_32 store ≡ (
  ok (second_id ∷ []),
  record store { db = record tables { messages = inserted_row second none ∷ [] } },
)
reconcile_reaches_example =
    reconcile_reaches account (second ∷ []) 1 hash_32 store (second_id ∷ [])
      (record tables { messages = inserted_row second none ∷ [] }) (omega arith) refl refl
      reconciled

reconciled_store : (reconcile account (second ∷ []) 1 hash_32 faulty_later).0 ≡ ok (second_id ∷ [])
unfolding reconcile with_connection transaction reconcile_body statement finish text_eq has_null_id
    inserted_row exists_id prune upsert_row
reconciled_store = refl

reconcile_refines_example :
    reconcile_spec account (second ∷ []) 1 hash_32 tables
    ≡ ok (second_id ∷ [], (reconcile account (second ∷ []) 1 hash_32 faulty_later).1.db)
reconcile_refines_example =
    reconcile_refines account (second ∷ []) 1 hash_32 faulty_later (second_id ∷ []) (omega arith)
      reconciled_store

reconcile_lem_example :
    let s' = (reconcile account (second ∷ []) 1 hash_32 faulty_later).1 in
    (recorded_identity account tables ≡ ok (some hash_32))
    × (length s'.db.messages ≤ 1)
    × (distinct (second_id ∷ []) ≡ true)
    × (all (λ id. exists_id id s'.db.messages) (second_id ∷ []) ≡ true)
reconcile_lem_example =
    reconcile_lem account (second ∷ []) 1 hash_32 faulty_later (second_id ∷ []) tables-IsKeyed
      reconciled_store

cached : (cache_if_present account message hash_32 store).0 ≡ ok true
unfolding cache_if_present with_connection transaction cache_body statement finish text_eq
    update_row inserted_row
cached = refl

cache_refines_example :
    cached_spec account message hash_32 tables
    ≡ ok (true, (cache_if_present account message hash_32 store).1.db)
cache_refines_example = cache_refines account message hash_32 store true tables-IsKeyed cached

purged_store : (purge account store).0 ≡ ok tt
unfolding purge with_connection transaction purge_body statement finish text_eq
purged_store = refl

purge_refines_example : purge_spec account tables ≡ ok (tt, (purge account store).1.db)
purge_refines_example = purge_refines account store purged_store

rewritten : (write_identity_hash account hash_32 true (some hash_32) store).0 ≡ ok tt
unfolding write_identity_hash with_connection transaction write_identity_body statement finish
    text_eq read_recorded_identity
rewritten = refl

write_identity_hash_lem_example :
    let s' = (write_identity_hash account hash_32 true (some hash_32) store).1 in
    (recorded_identity account tables ≡ ok (some hash_32))
    × (recorded_identity account s'.db ≡ ok (some hash_32))
    × (s'.db.messages ≡ [])
write_identity_hash_lem_example =
    write_identity_hash_lem account hash_32 true (some hash_32) store refl rewritten

first-IsEnvelope : IsEnvelope first
unfolding new_identifier new_header_text new_timestamp bytes encode
first-IsEnvelope = record {
  id_ok = refl;
  thread_ok = refl;
  from_ok = refl;
  subject_ok = refl;
  preview_ok = refl;
  time_ok = refl;
}

stored_message : (put message store).0 ≡ ok tt
unfolding put with_connection transaction statement write_envelope finish
stored_message = refl

get-put_message_example :
    (get_complete_message first_id (calm (put message store).1)).0
    ≡ ok (
        some (record message {
          envelope = record first {
            unread = still_unread (find_row first_id tables.messages) true;
          };
        }))
get-put_message_example =
    get-put_message message store first-IsEnvelope (omega arith) stored_message

abbrev token : Text
token = 49 ∷ 50 ∷ []

stored_token : (store_refresh_token account token store).0 ≡ ok tt
unfolding store_refresh_token with_connection statement text_eq bytes encode
stored_token = refl

load-store_refresh_token_example :
    (load_refresh_token account (calm (store_refresh_token account token store).1)).0
    ≡ ok (some token)
load-store_refresh_token_example = load-store_refresh_token account token store stored_token

cleared_token : (clear_refresh_token account store).0 ≡ ok tt
unfolding clear_refresh_token with_connection statement text_eq
cleared_token = refl

stored_subject : (store_broker_subject account token store).0 ≡ ok tt
unfolding store_broker_subject with_connection statement text_eq bytes encode
stored_subject = refl

abbrev metadata : AccountLifecycleMetadata
metadata = record { recovery = none; last_successful_sync_unix_millis = none }

read_metadata : (read_lifecycle_metadata (calm store)).0 ≡ ok metadata
unfolding read_lifecycle_metadata with_connection statement
read_metadata = refl

updated_recovery : (update_recovery (some incomplete_teardown) store).0 ≡ ok tt
unfolding update_recovery with_connection statement
updated_recovery = refl

recorded_sync : (record_successful_sync_at (pos 7) store).0 ≡ ok tt
unfolding record_successful_sync_at with_connection statement
recorded_sync = refl

-- two rows, the second of which is the newest
abbrev older : Row
older = inserted_row first none

abbrev newer : Row
newer = inserted_row second none

abbrev two_rows : List Row
two_rows = older ∷ newer ∷ []

two_rows-keyed : keyed two_rows ≡ true
unfolding keyed inserted_row exists_id text_eq
two_rows-keyed = refl

pruned : prune 1 two_rows ≡ newer ∷ []
unfolding prune inserted_row text_eq
pruned = refl

newer_listed : In newer (prune 1 two_rows)
newer_listed = rw pruned (inl refl)

not_older : In older (newer ∷ []) → ⊥
unfolding inserted_row
not_older (inl e) = ground (arith, ap (λ r. r.received_at) e)
not_older (inr x) = x

older_out : ¬ In older (prune 1 two_rows)
unfolding inserted_row
older_out m = not_older (subst (In older) pruned m)

prune_keeps_newest_example : newest_first newer older ≡ true
prune_keeps_newest_example =
    prune_keeps_newest 1 newer older two_rows two_rows-keyed newer_listed (inl refl) older_out
