-- ===== src/Store/Messages/Spec.antt =====
-- The message operations as functions on the tables, without statements, failures or locks.
use tersa_app.Prelude.{
  ℕ, ◌≤◌, Bool, Option, none, some, List, [], ◌∷◌, any, length, arith, if◌then◌else◌, Bool-cases,
  inl, inr,
}
use tersa_app.Prelude.Tests.{◌==◌}
use tersa_app.Prelude.Result.{Result, ok, err}
use tersa_app.Prelude.Text.{text_eq}
use tersa_app.Domain.Mailbox.{AccountId, MessageId, MessageEnvelope, Message}
use tersa_app.Application.Mailbox.{MailboxStoreError, corrupted, identity_changed, max_store_limit}
use tersa_app.Application.Identity.{IdentityHash, hash_eq}
use tersa_app.Store.Schema.{Row, Db}
use tersa_app.Store.Connection.{execute}
use tersa_app.Store.Connection.Laws.{
  Meaning, answer, Implements, statement-Implements, lift-Implements, bind-Implements,
  transaction-Implements, connection-Implements, Implements-eq,
}
use tersa_app.Store.Sql.{upsert_row, exists_id, has_null_id, prune, update_row}
use tersa_app.Store.Messages.{
  recorded_identity, read_recorded_identity, assert_identity_unchanged, write_envelope,
  write_envelopes, upsert, put, collect_survivors, reconcile_body, reconcile, cache_body,
  cache_if_present,
}

unfoldable pub upsert_rows : List MessageEnvelope → List Row → List Row
upsert_rows [] rows = rows
upsert_rows (e ∷ es) rows = upsert_rows es (upsert_row e none rows)

-- the identifiers of the envelopes that the rows hold, each once, in the order of the envelopes
unfoldable pub survivors_of : List MessageId → List MessageEnvelope → List Row → List MessageId
survivors_of seen [] rows = []
survivors_of seen (e ∷ es) rows =
    if any (λ id. text_eq id e.message_id) seen
    then survivors_of seen es rows
    else (let rest = survivors_of (e.message_id ∷ seen) es rows in
        if exists_id e.message_id rows then e.message_id ∷ rest else rest)

abbrev pub fenced :
    Result MailboxStoreError (Option IdentityHash)
    → IdentityHash
    → Result MailboxStoreError (Unit {0})
fenced (err e) fence = err e
fenced (ok none) fence = err identity_changed
fenced (ok (some current)) fence = if hash_eq current fence then ok tt else err identity_changed

unfoldable pub reconcile_spec :
    AccountId → List MessageEnvelope → ℕ → IdentityHash → Meaning (List MessageId)
reconcile_spec account envelopes keep_limit fence d =
    if has_null_id d.messages
    then err corrupted
    else (let rows = prune keep_limit (upsert_rows envelopes d.messages) in
        elim (fenced (recorded_identity account d) fence) [
          | err e ↦ err e
          | ok _ ↦ ok (survivors_of [] envelopes rows, record d { messages = rows })
        ])

pub execute-Implements : (f : Db → Db) → Implements (execute f) (λ d. ok (tt, f d))
execute-Implements f = statement-Implements (λ d. (tt, f d))

write_envelopes-Implements :
    (es : List MessageEnvelope)
    → Implements
        (write_envelopes es)
        (λ d. ok (tt, record d { messages = upsert_rows es d.messages }))
unfolding write_envelopes upsert_rows
write_envelopes-Implements [] = lift-Implements (ok tt)
write_envelopes-Implements (e ∷ es) =
    bind-Implements _ _ _ _ (execute-Implements _) (λ _. write_envelopes-Implements es)

collect_survivors-Implements :
    (seen : List MessageId) (es : List MessageEnvelope)
    → Implements (collect_survivors seen es) (λ d. ok (survivors_of seen es d.messages, d))
unfolding collect_survivors survivors_of
collect_survivors-Implements seen [] = lift-Implements (ok [])
collect_survivors-Implements seen (e ∷ es) =
    elim (Bool-cases (any (λ id. text_eq id e.message_id) seen)) [
      | inl old ↦ rw old (collect_survivors-Implements seen es)
      | inr new ↦ rw new (
          bind-Implements _ _ _ _ (statement-Implements _) λ exists.
            bind-Implements _ _ _ _ (collect_survivors-Implements (e.message_id ∷ seen) es)
              λ survivors.
                lift-Implements (ok (if exists then e.message_id ∷ survivors else survivors)))
    ]

pub read_recorded_identity-Implements :
    (account : AccountId)
    → Implements (read_recorded_identity account) (λ d. answer (recorded_identity account d) d)
unfolding read_recorded_identity
read_recorded_identity-Implements account =
    bind-Implements _ _ _ _ (statement-Implements _) (λ r. lift-Implements r)

assert_identity_unchanged-Implements :
    (account : AccountId) (fence : IdentityHash)
    → Implements
        (assert_identity_unchanged account fence)
        (λ d. answer (fenced (recorded_identity account d) fence) d)
unfolding assert_identity_unchanged
assert_identity_unchanged-Implements account fence =
    Implements-eq _ _
      (bind-Implements _ _ _ _ (read_recorded_identity-Implements account) (λ r. lift-Implements _))
      _ (λ d. ground arith)

reconcile_body-Implements :
    (account : AccountId) (es : List MessageEnvelope) (n : ℕ) (fence : IdentityHash)
    → Implements (reconcile_body account es n fence) (reconcile_spec account es n fence)
unfolding reconcile_body reconcile_spec recorded_identity
reconcile_body-Implements account es n fence =
    Implements-eq _ _
      (bind-Implements _ _ _ _ (statement-Implements (λ d. (has_null_id d.messages, d))) λ b.
        bind-Implements _ _ _ _ (lift-Implements (if b then err corrupted else ok tt)) λ _.
          bind-Implements _ _ _ _ (write_envelopes-Implements es) λ _.
            bind-Implements _ _ _ _
              (execute-Implements (λ d. record d { messages = prune n d.messages }))
              λ _. bind-Implements _ _ _ _ (collect_survivors-Implements [] es) λ survivors.
                bind-Implements _ _ _ _ (assert_identity_unchanged-Implements account fence)
                  λ _. lift-Implements (ok survivors))
      _ (λ d. ground arith)

-- With at most 10,000 envelopes `reconcile` implements `reconcile_spec`: an answer is that of the
-- specification, on its tables, and without a failing statement or a poisoned lock it is reached.
pub reconcile-Implements :
    (account : AccountId) (es : List MessageEnvelope) (n : ℕ) (fence : IdentityHash)
    → length es ≤ max_store_limit
    → Implements (reconcile account es n fence) (reconcile_spec account es n fence)
unfolding reconcile
reconcile-Implements account es n fence h =
    let i =
      connection-Implements _ _
        (transaction-Implements _ _ (reconcile_body-Implements account es n fence)) in
    record {
      sound = λ s a p. ground (arith, i.sound s a);
      complete = λ s a d nf np p. ground (arith, i.complete s a d nf np p);
    }

unfoldable pub cache_spec : AccountId → Message → IdentityHash → Meaning Bool
cache_spec account message fence d =
    let (n, rows) = update_row message.envelope message.content d.messages in
    elim (fenced (recorded_identity account d) fence) [
      | err e ↦ err e
      | ok _ ↦ ok (n == 1, record d { messages = rows })
    ]

-- `cache_if_present` implements `cache_spec`: the row of the message is updated behind the fence.
pub cache_if_present-Implements :
    (account : AccountId) (message : Message) (fence : IdentityHash)
    → Implements (cache_if_present account message fence) (cache_spec account message fence)
unfolding cache_if_present cache_body cache_spec recorded_identity
cache_if_present-Implements account message fence = connection-Implements _ _ (
    Implements-eq _ _
      (bind-Implements _ _ _ _
        (transaction-Implements _ _ (
          bind-Implements _ _ _ _ (statement-Implements _) λ changed.
            bind-Implements _ _ _ _ (assert_identity_unchanged-Implements account fence)
              λ _. lift-Implements (ok changed)))
        λ changed. lift-Implements (ok (changed == 1)))
      _ (λ d. ground arith))

pub upsert-Implements :
    (es : List MessageEnvelope)
    → Implements (upsert es) (λ d. ok (tt, record d { messages = upsert_rows es d.messages }))
unfolding upsert
upsert-Implements es =
    connection-Implements _ _ (transaction-Implements _ _ (write_envelopes-Implements es))

pub put-Implements :
    (m : Message)
    → Implements
        (put m)
        (λ d. ok (tt, record d { messages = upsert_row m.envelope (some m.content) d.messages }))
unfolding put write_envelope
put-Implements m = connection-Implements _ _ (transaction-Implements _ _ (execute-Implements _))
