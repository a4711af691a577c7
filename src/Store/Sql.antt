-- ===== src/Store/Sql.antt =====
-- The SQL statements of adapters/store-sqlcipher/src/lib.rs on `messages`, as functions on its rows.
use tersa_app.Prelude.{
  ℕ, Bool, true, false, not, ◌&&◌, Option, none, some, List, [], ◌∷◌, map, any, keep, take, leb,
  if◌then◌else◌,
}
use tersa_app.Prelude.Tests.{◌==◌}
use tersa_app.Prelude.Int.{ℤ, pos, eq_ℤ, leb_ℤ}
use tersa_app.Prelude.Text.{Text, bytes, text_eq}
use tersa_app.Domain.Mailbox.{MessageEnvelope}
use tersa_app.Store.Schema.{Row}

-- `message_id = ?`, which is not true of NULL
unfoldable pub has_id : Text → Row → Bool
has_id id r = elim r.message_id [ none ↦ false | some t ↦ text_eq t id ]

-- `i64::from(bool)`
abbrev pub unread_value : Bool → ℤ
unread_value true = pos 1
unread_value false = pos 0

-- `CASE WHEN unread = 0 THEN 0 ELSE ? END`: what was read locally stays read
abbrev pub sticky_unread : ℤ → ℤ → ℤ
sticky_unread old new = if eq_ℤ old (pos 0) then pos 0 else new

-- `COALESCE` of the two forms of the statement: without a content the old one stays
abbrev pub new_content_or : Option (List ℕ) → Option (List ℕ) → Option (List ℕ)
new_content_or none old = old
new_content_or (some c) old = some c

-- the row that `INSERT` adds
unfoldable pub inserted_row : MessageEnvelope → Option (List ℕ) → Row
inserted_row e content = record {
  message_id = some e.message_id;
  thread_id = e.thread_id;
  sender = e.from;
  subject = e.subject;
  preview = e.preview;
  received_at = e.received_at;
  unread = unread_value e.unread;
  content = content;
}

-- the row that `DO UPDATE SET` leaves
unfoldable pub updated_row : MessageEnvelope → Option (List ℕ) → Row → Row
updated_row e content r = record r {
  thread_id = e.thread_id;
  sender = e.from;
  subject = e.subject;
  preview = e.preview;
  received_at = e.received_at;
  unread = sticky_unread r.unread (unread_value e.unread);
  content = new_content_or content r.content;
}

-- `INSERT … ON CONFLICT(message_id) DO UPDATE …`
unfoldable pub upsert_row : MessageEnvelope → Option (List ℕ) → List Row → List Row
unfolding has_id inserted_row updated_row
upsert_row e content [] = inserted_row e content ∷ []
upsert_row e content (r ∷ rs) =
    if has_id e.message_id r then updated_row e content r ∷ rs else r ∷ upsert_row e content rs

-- the order of texts: `memcmp` of their bytes
unfoldable pub bytes_leb : List ℕ → List ℕ → Bool
bytes_leb [] ys = true
bytes_leb (x ∷ xs) [] = false
bytes_leb (x ∷ xs) (y ∷ ys) = if x == y then bytes_leb xs ys else leb x y

-- `message_id ASC`, where NULL comes first
unfoldable pub id_leb : Option Text → Option Text → Bool
unfolding bytes_leb
id_leb none t = true
id_leb (some s) none = false
id_leb (some s) (some t) = bytes_leb (bytes s) (bytes t)

-- `ORDER BY received_at DESC, message_id ASC`
unfoldable pub newest_first : Row → Row → Bool
unfolding id_leb
newest_first r s =
    if eq_ℤ r.received_at s.received_at
    then id_leb r.message_id s.message_id
    else leb_ℤ s.received_at r.received_at

-- `ORDER BY received_at ASC, message_id ASC`
unfoldable pub oldest_first : Row → Row → Bool
unfolding id_leb
oldest_first r s =
    if eq_ℤ r.received_at s.received_at
    then id_leb r.message_id s.message_id
    else leb_ℤ r.received_at s.received_at

module _ (before : Row → Row → Bool) where
  unfoldable pub insert_row : Row → List Row → List Row
  insert_row r [] = r ∷ []
  insert_row r (s ∷ rs) = if before r s then r ∷ s ∷ rs else s ∷ insert_row r rs

  -- what `ORDER BY` yields, as an insertion sort
  unfoldable pub order_by : List Row → List Row
  unfolding insert_row
  order_by [] = []
  order_by (r ∷ rs) = insert_row r (order_by rs)

-- `EXISTS(SELECT 1 FROM messages WHERE message_id = ?1)`
unfoldable pub exists_id : Text → List Row → Bool
unfolding has_id
exists_id id rows = any (has_id id) rows

-- `EXISTS(SELECT 1 FROM messages WHERE message_id IS NULL)`
unfoldable pub has_null_id : List Row → Bool
has_null_id rows = any (λ r. elim r.message_id [ none ↦ true | some _ ↦ false ]) rows

-- `message_id NOT IN (…)` is true: nothing involved is NULL and no listed row has the identifier
unfoldable pub not_in : List Row → Row → Bool
unfolding exists_id has_null_id
not_in kept r = elim r.message_id [
  | none ↦ false
  | some id ↦ not (has_null_id kept) && not (exists_id id kept)
]

-- `DELETE FROM messages WHERE message_id NOT IN (SELECT … ORDER BY … LIMIT ?1)`
unfoldable pub prune : ℕ → List Row → List Row
unfolding not_in order_by newest_first
prune limit rows =
    let kept = take limit (order_by newest_first rows) in keep (λ r. not (not_in kept r)) rows

-- `UPDATE messages SET unread = 0 WHERE … AND unread = 1`
unfoldable pub mark_read_where : (Row → Bool) → List Row → List Row
mark_read_where p rows =
    map (λ r. if p r && eq_ℤ r.unread (pos 1) then record r { unread = pos 0 } else r) rows

-- `UPDATE messages SET … WHERE message_id = ?1`, with the number of rows changed
unfoldable pub update_row : MessageEnvelope → List ℕ → List Row → ℕ × List Row
unfolding has_id updated_row
update_row e content [] = (0, [])
update_row e content (r ∷ rs) =
    if has_id e.message_id r
    then (1, updated_row e (some content) r ∷ rs)
    else (let (n, rs') = update_row e content rs in (n, r ∷ rs'))
