-- ===== src/Store/Messages.antt =====
-- adapters/store-sqlcipher/src/lib.rs: the operations on `messages` and the identity fence.
pub mod Spec
pub mod Rows
pub mod Order
pub mod Retention
use tersa_app.Prelude.{
  ℕ, Bool, true, false, not, ◌&&◌, Option, none, some, List, [], ◌∷◌, length, take, leb, ltb, any,
  keep, if◌then◌else◌,
}
use tersa_app.Prelude.Tests.{◌==◌}
use tersa_app.Prelude.Int.{ℤ, pos, negsuc}
use tersa_app.Prelude.Result
use tersa_app.Prelude.Result.{Result, ok, err, map_err}
use tersa_app.Prelude.Action.{Action, pure, raise, lift, ◌>>=◌, ◌>>◌}
use tersa_app.Prelude.Text.{Text, len, text_eq}
use tersa_app.Domain.Mailbox.{
  AccountId, MessageId, ThreadId, MessageEnvelope, Message, max_content_len, max_identifier_len,
  max_header_len, new_identifier, new_header_text, new_timestamp, new_content,
}
use tersa_app.Application.Mailbox.{
  MailboxStoreError, storage, corrupted, identity_changed, identity_raced, max_store_limit,
}
use tersa_app.Application.Identity.{IdentityHash, hash_eq}
use tersa_app.Store.Schema.{Row, Db, IdentityRow}
use tersa_app.Store.Connection.{
  Store, checked_account, statement, query, execute, transaction, with_connection,
}
use tersa_app.Store.Sql.{
  has_id, upsert_row, order_by, newest_first, oldest_first, exists_id, has_null_id, prune,
  mark_read_where, update_row,
}

abbrev pub identity_algo_version : ℕ
identity_algo_version = 2

-- the decoded `account_identity` row of an account
unfoldable pub decode_identity : IdentityRow → Result MailboxStoreError (Option IdentityHash)
decode_identity r =
    if (length r.identity_hash == 32) && (r.algo_version == identity_algo_version)
    then ok (some r.identity_hash)
    else err corrupted

unfoldable pub find_identity : AccountId → List IdentityRow → Option IdentityRow
find_identity account [] = none
find_identity account (r ∷ rs) =
    if text_eq r.account_id account then some r else find_identity account rs

abbrev decode_found : Option IdentityRow → Result MailboxStoreError (Option IdentityHash)
decode_found none = ok none
decode_found (some r) = decode_identity r

-- what the identity table says of an account
unfoldable pub recorded_identity : AccountId → Db → Result MailboxStoreError (Option IdentityHash)
unfolding find_identity decode_identity
recorded_identity account d = decode_found (find_identity account d.identity)

unfoldable pub read_recorded_identity :
    AccountId → Action Store MailboxStoreError (Option IdentityHash)
unfolding recorded_identity
read_recorded_identity account = do r ← query (recorded_identity account); lift r

unfoldable pub assert_identity_unchanged :
    AccountId → IdentityHash → Action Store MailboxStoreError (Unit {0})
unfolding read_recorded_identity
assert_identity_unchanged account fence = do
  recorded ← read_recorded_identity account
  lift (elim recorded [
    | none ↦ err identity_changed
    | some current ↦ if hash_eq current fence then ok tt else err identity_changed
  ])

unfoldable pub write_envelope :
    MessageEnvelope → Option (List ℕ) → Action Store MailboxStoreError (Unit {0})
write_envelope e content = execute (λ d. record d { messages = upsert_row e content d.messages })

-- `for envelope in envelopes { write_envelope(…)?; }`
unfoldable pub write_envelopes : List MessageEnvelope → Action Store MailboxStoreError (Unit {0})
unfolding write_envelope
write_envelopes [] = pure tt
write_envelopes (e ∷ es) = do write_envelope e none; write_envelopes es

unfoldable pub upsert : List MessageEnvelope → Action Store MailboxStoreError (Unit {0})
upsert envelopes = with_connection (transaction (write_envelopes envelopes))

unfoldable pub put : Message → Action Store MailboxStoreError (Unit {0})
put message = with_connection (transaction (write_envelope message.envelope (some message.content)))

-- the loop that collects the survivors; `seen` holds the identifiers of the earlier envelopes
unfoldable pub collect_survivors :
    List MessageId → List MessageEnvelope → Action Store MailboxStoreError (List MessageId)
collect_survivors seen [] = pure []
collect_survivors seen (e ∷ es) =
    let skipped = collect_survivors seen es in
    let rest = collect_survivors (e.message_id ∷ seen) es in
    let looked_up = (do
      exists ← query (λ d. exists_id e.message_id d.messages)
      survivors ← rest
      pure (if exists then e.message_id ∷ survivors else survivors)) in
    if any (λ id. text_eq id e.message_id) seen then skipped else looked_up

-- the body of the transaction of `reconcile`
unfoldable pub reconcile_body :
    AccountId
    → List MessageEnvelope
    → ℕ
    → IdentityHash
    → Action Store MailboxStoreError (List MessageId)
unfolding write_envelopes collect_survivors assert_identity_unchanged
reconcile_body account envelopes keep_limit fence = do
  has_null_identifier ← query (λ d. has_null_id d.messages)
  lift (if has_null_identifier then err corrupted else ok tt)
  write_envelopes envelopes
  execute (λ d. record d { messages = prune keep_limit d.messages })
  survivors ← collect_survivors [] envelopes
  assert_identity_unchanged account fence
  pure survivors

unfoldable pub reconcile :
    AccountId
    → List MessageEnvelope
    → ℕ
    → IdentityHash
    → Action Store MailboxStoreError (List MessageId)
reconcile account envelopes keep_limit fence s =
    if ltb max_store_limit (length envelopes)
    then (err storage, s)
    else with_connection (transaction (reconcile_body account envelopes keep_limit fence)) s

-- the body of the transaction of `cache_if_present`
unfoldable pub cache_body : AccountId → Message → IdentityHash → Action Store MailboxStoreError ℕ
unfolding assert_identity_unchanged
cache_body account message fence = do
  changed ← statement (λ d.
      let (n, rows) = update_row message.envelope message.content d.messages in
      (n, record d { messages = rows }))
  assert_identity_unchanged account fence
  pure changed

unfoldable pub cache_if_present :
    AccountId → Message → IdentityHash → Action Store MailboxStoreError Bool
cache_if_present account message fence =
    with_connection
      (do changed ← transaction (cache_body account message fence); pure (changed == 1))

unfoldable pub mark_one_message_read : MessageId → Action Store MailboxStoreError (Unit {0})
mark_one_message_read id =
    with_connection (execute (λ d. record d { messages = mark_read_where (has_id id) d.messages }))

unfoldable pub mark_one_thread_read : ThreadId → Action Store MailboxStoreError (Unit {0})
mark_one_thread_read thread = with_connection (
    execute
      (λ d. record d { messages = mark_read_where (λ r. text_eq r.thread_id thread) d.messages }))
