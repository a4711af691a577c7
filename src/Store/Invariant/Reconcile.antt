-- ===== src/Store/Invariant/Reconcile.antt =====
-- What a successful `reconcile` has done.
use tersa_app.Prelude.{
  ℕ, ◌≤◌, ◌≡◌, refl, Bool, true, false, ◌&&◌, not, Option, none, some, List, [], ◌∷◌, length, any,
  all, arith,
}
use tersa_app.Prelude.Result.{Result, ok, err}
use tersa_app.Prelude.Text.{text_eq, text_eq_iff}
use tersa_app.Domain.Mailbox.{AccountId, MessageId, MessageEnvelope}
use tersa_app.Application.Mailbox.{MailboxStoreError, max_store_limit}
use tersa_app.Application.Identity.{IdentityHash}
use tersa_app.Store.Schema.{Db}
use tersa_app.Store.Connection.{Store}
use tersa_app.Store.Sql.{exists_id}
use tersa_app.Store.Messages.{reconcile, recorded_identity}
use tersa_app.Store.Messages.Spec.{reconcile-Implements, upsert_rows, survivors_of, fenced}
use tersa_app.Store.Messages.Rows.{length-prune}
use tersa_app.Store.Invariant.Keys.{IsKeyed, reconcile_success, keyed-upserts}

-- the identifiers that a list of identifiers has once
unfoldable pub distinct : List MessageId → Bool
distinct [] = true
distinct (id ∷ ids) = not (any (λ j. text_eq j id) ids) && distinct ids

fenced_eq :
    (r : Result MailboxStoreError (Option IdentityHash)) (fence : IdentityHash)
    → fenced r fence ≡ ok tt
    → r ≡ ok (some fence)
fenced_eq (err e) fence h = cc
fenced_eq (ok none) fence h = cc
fenced_eq (ok (some c)) fence h = ground (arith, text_eq_iff c fence)

survivors_exist :
    (seen : List MessageId) (es : List MessageEnvelope) (d : Db)
    → all (λ id. exists_id id d.messages) (survivors_of seen es d.messages) ≡ true
unfolding survivors_of
survivors_exist seen [] d = refl
survivors_exist seen (e ∷ es) d =
    ground (arith, survivors_exist seen es d, survivors_exist (e.message_id ∷ seen) es d)

-- no survivor was seen before
survivors_fresh :
    (id : MessageId) (seen : List MessageId) (es : List MessageEnvelope) (d : Db)
    → any (λ j. text_eq j id) seen ≡ true
    → any (λ j. text_eq j id) (survivors_of seen es d.messages) ≡ false
unfolding survivors_of
survivors_fresh id seen [] d h = refl
survivors_fresh id seen (e ∷ es) d h = ground (
  arith,
  survivors_fresh id seen es d,
  survivors_fresh id (e.message_id ∷ seen) es d,
  text_eq_iff e.message_id id,
)

survivors_distinct :
    (seen : List MessageId) (es : List MessageEnvelope) (d : Db)
    → distinct (survivors_of seen es d.messages) ≡ true
unfolding survivors_of distinct
survivors_distinct seen [] d = refl
survivors_distinct seen (e ∷ es) d = ground (
  arith,
  survivors_distinct seen es d,
  survivors_distinct (e.message_id ∷ seen) es d,
  survivors_fresh e.message_id (e.message_id ∷ seen) es d,
  text_eq_iff e.message_id e.message_id,
)

reconcile_short :
    (account : AccountId) (es : List MessageEnvelope) (n : ℕ) (fence : IdentityHash) (s : Store)
    (ids : List MessageId)
    → (reconcile account es n fence s).0 ≡ ok ids
    → length es ≤ max_store_limit
unfolding reconcile
reconcile_short account es n fence s ids h = ground arith

-- Where `reconcile` reports survivors over a table of distinct identifiers, the fence was the
-- recorded identity, the table holds at most `keep_limit` rows, and the survivors are distinct
-- identifiers of stored rows.
pub reconcile_lem :
    (account : AccountId) (es : List MessageEnvelope) (n : ℕ) (fence : IdentityHash) (s : Store)
    (ids : List MessageId)
    → IsKeyed s.db
    → (reconcile account es n fence s).0 ≡ ok ids
    → let s' = (reconcile account es n fence s).1 in
      (recorded_identity account s.db ≡ ok (some fence))
      × (length s'.db.messages ≤ n)
      × (distinct ids ≡ true)
      × (all (λ id. exists_id id s'.db.messages) ids ≡ true)
reconcile_lem account es n fence s ids k h =
    let d' = (reconcile account es n fence s).1.db in
    let (rows, found, same, _) = reconcile_success account es n fence s.db d' ids (
      (reconcile-Implements account es n fence (reconcile_short account es n fence s ids h)).sound s
        ids h) in
    (
      fenced_eq _ fence same,
      rw rows (length-prune n (upsert_rows es s.db.messages) (keyed-upserts es s.db.messages k)),
      rw found (survivors_distinct [] es d'),
      rw found (survivors_exist [] es d'),
    )
