-- ===== src/Store/Identity/Fence.antt =====
-- The compare-and-set of the recorded identity, and the purge, as functions on the tables.
use tersa_app.Prelude.{
  ◌≡◌, refl, Bool, true, false, not, Option, none, some, List, [], ◌∷◌, keep, arith, if◌then◌else◌,
  ap, ◌∙◌,
}
use tersa_app.Prelude.Tests.{◌==◌}
use tersa_app.Prelude.Lists.{length}
use tersa_app.Prelude.Result.{Result, ok, err}
use tersa_app.Prelude.Action.{pure}
use tersa_app.Prelude.Text.{text_eq, text_eq_iff}
use tersa_app.Domain.Mailbox.{AccountId}
use tersa_app.Application.Mailbox.{MailboxStoreError, corrupted, identity_raced}
use tersa_app.Application.Identity.{IdentityHash}
use tersa_app.Store.Schema.{Db, Binding, IdentityRow}
use tersa_app.Store.Connection.{Store}
use tersa_app.Store.Connection.Laws.{
  Meaning, then_, answer, Implements, statement-Implements, lift-Implements, bind-Implements,
  transaction-Implements, connection-Implements, Implements-eq,
}
use tersa_app.Store.Messages.{recorded_identity, find_identity, identity_algo_version}
use tersa_app.Store.Messages.Spec.{read_recorded_identity-Implements, execute-Implements}
use tersa_app.Store.Identity.{
  matches_expected, assert_identity_matches_expected, record_hash, forget_freshness,
  clear_mailbox_rows, write_identity_body, write_identity_hash, update_binding, purge_body, purge,
}

-- the tables after the mailbox is cleared
abbrev pub cleared : Bool → Db → Db
cleared true d = record d { messages = []; lifecycle = forget_freshness d.lifecycle }
cleared false d = d

-- The identity is recorded only over the expected one, and a clear goes with it.
unfoldable pub write_identity_spec :
    AccountId → IdentityHash → Bool → Option IdentityHash → Meaning (Unit {0})
write_identity_spec account fresh clear_mailbox expected d = elim (recorded_identity account d) [
  | err e ↦ err e
  | ok recorded ↦
      if matches_expected recorded expected
      then ok
          (tt, record (cleared clear_mailbox d) { identity = record_hash account fresh d.identity })
      else err identity_raced
]

clear-Implements :
    (b : Bool) → Implements (if b then clear_mailbox_rows else pure tt) (λ d. ok (tt, cleared b d))
unfolding clear_mailbox_rows
clear-Implements true = bind-Implements _ _ _ _ (execute-Implements _) (λ _. execute-Implements _)
clear-Implements false = lift-Implements (ok tt)

assert-Implements :
    (account : AccountId) (expected : Option IdentityHash)
    → Implements (assert_identity_matches_expected account expected) (λ d.
      then_
        (λ recorded.
          answer (if matches_expected recorded expected then ok tt else err identity_raced))
        (answer (recorded_identity account d) d))
unfolding assert_identity_matches_expected
assert-Implements account expected =
    bind-Implements _ _ _ _ (read_recorded_identity-Implements account)
      (λ recorded. lift-Implements _)

-- `write_identity_hash` implements that.
pub write_identity_hash-Implements :
    (account : AccountId) (fresh : IdentityHash) (clear_mailbox : Bool)
    (expected : Option IdentityHash)
    → Implements
        (write_identity_hash account fresh clear_mailbox expected)
        (write_identity_spec account fresh clear_mailbox expected)
unfolding write_identity_hash write_identity_body write_identity_spec
write_identity_hash-Implements account fresh clear_mailbox expected = connection-Implements _ _ (
    transaction-Implements _ _ (
      Implements-eq _ _
        (bind-Implements _ _ _ _ (assert-Implements account expected)
          λ _. bind-Implements _ _ _ _ (clear-Implements clear_mailbox) λ _. execute-Implements _)
        _ (λ d. ground arith)))

find-record_hash :
    (account : AccountId) (hash : IdentityHash) (rows : List IdentityRow)
    → find_identity account (record_hash account hash rows)
      ≡ some (record {
        account_id = account;
        identity_hash = hash;
        algo_version = identity_algo_version;
      })
unfolding find_identity record_hash
find-record_hash account hash [] = ground (arith, text_eq_iff account account)
find-record_hash account hash (r ∷ rs) =
    ground (arith, text_eq_iff r.account_id account, find-record_hash account hash rs)

matches_expected-eq : (r x : Option IdentityHash) → matches_expected r x ≡ true → r ≡ x
unfolding matches_expected
matches_expected-eq none none h = refl
matches_expected-eq (some a) (some b) h = ground (arith, text_eq_iff a b)
matches_expected-eq none (some b) h = cc
matches_expected-eq (some a) none h = cc

recorded-record_hash :
    (account : AccountId) (hash : IdentityHash) (d : Db) (rows : List IdentityRow)
    → length hash ≡ 32
    → d.identity ≡ record_hash account hash rows
    → recorded_identity account d ≡ ok (some hash)
unfolding recorded_identity
recorded-record_hash account hash d rows l e = ground (arith, find-record_hash account hash rows)

messages-cleared : (b : Bool) (d : Db) → (cleared b d).messages ≡ (if b then [] else d.messages)
messages-cleared b d = ground arith

-- the tables after a recording, by cases of the specification
recorded_cases :
    (account : AccountId) (fresh : IdentityHash) (clear_mailbox : Bool)
    (expected : Option IdentityHash) (d d' : Db)
    → write_identity_spec account fresh clear_mailbox expected d ≡ ok (tt, d')
    → (recorded_identity account d ≡ ok expected)
      × (d' ≡ record (cleared clear_mailbox d) { identity = record_hash account fresh d.identity })
unfolding write_identity_spec
recorded_cases account fresh clear_mailbox expected d d' h = go (recorded_identity account d) refl
  where
    go :
        (r : Result MailboxStoreError (Option IdentityHash))
        → recorded_identity account d ≡ r
        → (recorded_identity account d ≡ ok expected)
          × (d' ≡ record (cleared clear_mailbox d) {
            identity = record_hash account fresh d.identity;
          })
    go (err x) e = absurd (ground arith)
    go (ok recorded) e = ground (arith, matches_expected-eq recorded expected)

-- Recording reports success only over the expected identity; afterwards the fresh hash, of 32
-- bytes, is the recorded one, and the messages are gone exactly when a clear was asked for.
pub write_identity_hash_lem :
    (account : AccountId) (fresh : IdentityHash) (clear_mailbox : Bool)
    (expected : Option IdentityHash) (s : Store)
    → length fresh ≡ 32
    → (write_identity_hash account fresh clear_mailbox expected s).0 ≡ ok tt
    → let s' = (write_identity_hash account fresh clear_mailbox expected s).1 in
      (recorded_identity account s.db ≡ ok expected)
      × (recorded_identity account s'.db ≡ ok (some fresh))
      × (s'.db.messages ≡ (if clear_mailbox then [] else s.db.messages))
write_identity_hash_lem account fresh clear_mailbox expected s l h =
    let s' = (write_identity_hash account fresh clear_mailbox expected s).1 in
    let (before, after) =
      recorded_cases account fresh clear_mailbox expected s.db s'.db
        ((write_identity_hash-Implements account fresh clear_mailbox expected).sound s tt h) in
    (
      before,
      recorded-record_hash account fresh s'.db s.db.identity l (ap (λ d. d.identity) after),
      ap (λ d. d.messages) after ∙ messages-cleared clear_mailbox s.db,
    )

-- what a purge leaves behind
unfoldable pub purged : AccountId → Binding → Db → Db
purged account b d = record {
  binding = some (record b { broker_subject = none; refresh_token = none });
  messages = [];
  identity = keep (λ r. not (text_eq r.account_id account)) d.identity;
  lifecycle = forget_freshness d.lifecycle;
}

unfoldable pub purge_spec : AccountId → Meaning (Unit {0})
purge_spec account d = elim d.binding [
  | none ↦ err corrupted
  | some b ↦ if text_eq b.account_id account then ok (tt, purged account b d) else err corrupted
]

-- `purge` implements `purge_spec`: without the binding row of the account it fails; otherwise the
-- messages, the identity, both credentials and the freshness are gone, and the binding and the
-- recovery marker stay.
pub purge-Implements : (account : AccountId) → Implements (purge account) (purge_spec account)
unfolding purge purge_body purge_spec purged update_binding
purge-Implements account = connection-Implements _ _ (
    transaction-Implements _ _ (
      Implements-eq _ _
        (bind-Implements _ _ _ _ (execute-Implements (λ d. record d { messages = [] })) λ _.
          bind-Implements _ _ _ _
            (execute-Implements (λ d. record d {
              identity = keep (λ r. not (text_eq r.account_id account)) d.identity;
            }))
            λ _. bind-Implements _ _ _ _ (statement-Implements _) λ n.
              bind-Implements _ _ _ _
                (lift-Implements (if not (n == 1) then err corrupted else ok tt))
                λ _.
                  execute-Implements (λ d. record d { lifecycle = forget_freshness d.lifecycle }))
        _ (λ d. ground arith)))
