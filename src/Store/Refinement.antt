-- ===== src/Store/Refinement.antt =====
-- What the transactions of the store do, as functions on the tables.
use tersa_app.Prelude.{
  ℕ, ◌≤◌, ◌≡◌, refl, ap, sym, ◌∙◌, List, [], ◌∷◌, length, Bool, true, false, not, ◌||◌, none, some,
  any, map, arith, Bool-cases, Option-cases, inl, inr, if◌then◌else◌,
}
use tersa_app.Prelude.Tests.{◌==◌}
use tersa_app.Prelude.Int.{pos, eq_ℤ}
use tersa_app.Prelude.Text.{Text, text_eq, text_eq_iff}
use tersa_app.Store.Connection.Laws.{Meaning}
use tersa_app.Store.Sql.{has_id, exists_id, update_row, updated_row}
use tersa_app.Store.Messages.Rows.{keyed}
use tersa_app.Prelude.Result.{Result, ok, err}
use tersa_app.Domain.Mailbox.{AccountId, MessageId, MessageEnvelope, Message}
use tersa_app.Application.Mailbox.{MailboxStoreError, max_store_limit}
use tersa_app.Application.Identity.{IdentityHash}
use tersa_app.Store.Schema.{Db, Row}
use tersa_app.Store.Connection.{Store}
use tersa_app.Store.Messages.{recorded_identity, reconcile, cache_if_present}
use tersa_app.Store.Messages.Spec.{
  reconcile-Implements, reconcile_spec, cache_if_present-Implements, cache_spec, fenced,
}
use tersa_app.Store.Identity.{purge}
use tersa_app.Store.Identity.Fence.{purge-Implements, purge_spec}

-- Where `reconcile` of at most 10,000 envelopes reports survivors, whatever statements failed on
-- the way, `reconcile_spec` gives these survivors over the tables before, and the tables after are
-- those of `reconcile_spec`.
pub reconcile_refines :
    (account : AccountId) (es : List MessageEnvelope) (n : ℕ) (fence : IdentityHash) (s : Store)
    (ids : List MessageId)
    → length es ≤ max_store_limit
    → (reconcile account es n fence s).0 ≡ ok ids
    → reconcile_spec account es n fence s.db ≡ ok (ids, (reconcile account es n fence s).1.db)
reconcile_refines account es n fence s ids h =
    (reconcile-Implements account es n fence h).sound s ids

-- Where no statement fails and the lock is not poisoned, `reconcile` of at most 10,000 envelopes
-- reaches the answer and the tables that `reconcile_spec` gives.
pub reconcile_reaches :
    (account : AccountId) (es : List MessageEnvelope) (n : ℕ) (fence : IdentityHash) (s : Store)
    (ids : List MessageId) (d : Db)
    → length es ≤ max_store_limit
    → s.faults ≡ []
    → s.poisoned ≡ false
    → reconcile_spec account es n fence s.db ≡ ok (ids, d)
    → reconcile account es n fence s ≡ (ok ids, record s { db = d })
reconcile_reaches account es n fence s ids d h =
    (reconcile-Implements account es n fence h).complete s ids d

-- the reference: the row of the identifier takes the envelope and the content of the message, and
-- what was read stays read; every other row stays as it is
unfoldable pub is_row_of : Text → Row → Bool
is_row_of id r = elim r.message_id [ none ↦ false | some t ↦ text_eq t id ]

unfoldable pub cached_row : Message → Row → Row
unfolding is_row_of
cached_row m r =
    if is_row_of m.envelope.message_id r
    then record {
      message_id = r.message_id;
      thread_id = m.envelope.thread_id;
      sender = m.envelope.from;
      subject = m.envelope.subject;
      preview = m.envelope.preview;
      received_at = m.envelope.received_at;
      unread = if eq_ℤ r.unread (pos 0) || not m.envelope.unread then pos 0 else pos 1;
      content = some m.content;
    }
    else r

abbrev behind :
    Result MailboxStoreError (Unit {0}) → Bool → Db → Result MailboxStoreError (Bool × Db)
behind (err e) answer d = err e
behind (ok _) answer d = ok (answer, d)

unfoldable pub cached_spec : AccountId → Message → IdentityHash → Meaning Bool
unfolding cached_row
cached_spec account m fence d =
    behind (fenced (recorded_identity account d) fence)
      (any (is_row_of m.envelope.message_id) d.messages)
      (record d { messages = map (cached_row m) d.messages })

has_id-row : (id : Text) (r : Row) → has_id id r ≡ is_row_of id r
unfolding has_id is_row_of
has_id-row id r = refl

updated-cached :
    (m : Message) (r : Row)
    → is_row_of m.envelope.message_id r ≡ true
    → updated_row m.envelope (some m.content) r ≡ cached_row m r
unfolding updated_row cached_row
updated-cached m r h = rw h (elim (Bool-cases (eq_ℤ r.unread (pos 0))) [
  | inl was_read ↦ rw was_read refl
  | inr was_unread ↦ rw was_unread (elim (Bool-cases m.envelope.unread) [
    | inl unread ↦ rw unread refl
    | inr marked ↦ rw marked refl
  ])
])

skipped-cached :
    (m : Message) (r : Row) → is_row_of m.envelope.message_id r ≡ false → cached_row m r ≡ r
unfolding cached_row
skipped-cached m r h = rw h refl

row_id : (id t : Text) (r : Row) → is_row_of id r ≡ true → r.message_id ≡ some t → t ≡ id
unfolding is_row_of
row_id id t r h named = ground (arith, text_eq_iff t id)

others-cached :
    (m : Message) (rows : List Row)
    → exists_id m.envelope.message_id rows ≡ false
    → (map (cached_row m) rows ≡ rows) × (any (is_row_of m.envelope.message_id) rows ≡ false)
unfolding exists_id cached_row
others-cached m [] h = (refl, refl)
others-cached m (r ∷ rs) h = ground (arith, others-cached m rs, has_id-row m.envelope.message_id r)

update-cached :
    (m : Message) (rows : List Row)
    → keyed rows ≡ true
    → ((update_row m.envelope m.content rows).1 ≡ map (cached_row m) rows)
      × (((update_row m.envelope m.content rows).0 == 1)
          ≡ any (is_row_of m.envelope.message_id) rows)
unfolding update_row keyed
update-cached m [] h = (refl, refl)
update-cached m (r ∷ rs) h = elim (Option-cases r.message_id) [
  | inl null ↦ absurd (ground arith)
  | inr (id, named) ↦ elim (Bool-cases (is_row_of m.envelope.message_id r)) [
    | inl mine ↦
        let (same, none_other) =
          others-cached m rs (
            ground
              (arith, has_id-row m.envelope.message_id r, row_id m.envelope.message_id id r)) in
        rw (has_id-row m.envelope.message_id r, mine, same, updated-cached m r mine) (refl, refl)
    | inr other ↦
        let (rows, answered) = update-cached m rs (ground arith) in
        rw (has_id-row m.envelope.message_id r, other, skipped-cached m r other)
          (ap (λ t. r ∷ t) rows, answered)
  ]
]

cache-cached :
    (account : AccountId) (m : Message) (fence : IdentityHash) (d : Db)
    → keyed d.messages ≡ true
    → cached_spec account m fence d ≡ cache_spec account m fence d
unfolding cached_spec cache_spec recorded_identity
cache-cached account m fence d k = go (fenced (recorded_identity account d) fence)
  where
    go :
        (f : Result MailboxStoreError (Unit {0}))
        → behind f
            (any (is_row_of m.envelope.message_id) d.messages)
            (record d { messages = map (cached_row m) d.messages })
          ≡ elim f [
            | err e ↦ err e
            | ok _ ↦ ok (
              (update_row m.envelope m.content d.messages).0 == 1,
              record d { messages = (update_row m.envelope m.content d.messages).1 },
            )
          ]
    go (err e) = refl
    go (ok u) =
        let (rows, answered) = update-cached m d.messages k in
        ap (λ b. ok (b, record d { messages = map (cached_row m) d.messages })) (sym answered)
        ∙ ap
            (λ rs.
              ok ((update_row m.envelope m.content d.messages).0 == 1, record d { messages = rs }))
            (sym rows)

-- Where the identifiers of the stored messages are distinct and `cache_if_present` answers, whatever
-- statements failed on the way, the recorded identity is that of the fence, the answer is whether the
-- message has a row, and the tables after it are those before with the envelope and the content of
-- the message in that row, where what was read stays read; no other row changes, and none is added.
pub cache_refines :
    (account : AccountId) (message : Message) (fence : IdentityHash) (s : Store) (cached : Bool)
    → keyed s.db.messages ≡ true
    → (cache_if_present account message fence s).0 ≡ ok cached
    → cached_spec account message fence s.db
      ≡ ok (cached, (cache_if_present account message fence s).1.db)
cache_refines account message fence s cached k h =
    cache-cached account message fence s.db k
    ∙ (cache_if_present-Implements account message fence).sound s cached h

-- Where `purge` succeeds, the tables after it are those of `purge_spec`: no messages, no identity
-- of the account, no credentials, no freshness, with the binding and the recovery marker kept.
pub purge_refines :
    (account : AccountId) (s : Store)
    → (purge account s).0 ≡ ok tt
    → purge_spec account s.db ≡ ok (tt, (purge account s).1.db)
purge_refines account s = (purge-Implements account).sound s tt
