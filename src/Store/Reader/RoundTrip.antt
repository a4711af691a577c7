-- ===== src/Store/Reader/RoundTrip.antt =====
-- What is put into the store is what is read back, and what was read stays read.
use tersa_app.Prelude.{
  ℕ, ◌≤◌, ◌≡◌, refl, Bool, true, false, Option, none, some, List, [], ◌∷◌, length, arith, ltb,
  if◌then◌else◌,
}
use tersa_app.Prelude.Int.{pos, eq_ℤ}
use tersa_app.Prelude.Result.{ok, err}
use tersa_app.Prelude.Text.{Text, len, text_eq_iff}
use tersa_app.Domain.Mailbox.{
  MessageId, MessageEnvelope, Message, new_identifier, new_header_text, new_timestamp, new_content,
  max_content_len,
}
use tersa_app.Application.Mailbox.{storage}
use tersa_app.Store.Schema.{Row}
use tersa_app.Store.Connection.{Store, statement, transaction, with_connection}
use tersa_app.Store.Sql.{has_id, inserted_row, updated_row, upsert_row, unread_value}
use tersa_app.Store.Messages.{put, write_envelope}
use tersa_app.Store.Messages.Retention.{has_id-eq}
use tersa_app.Store.Reader.{
  find_row, envelope_from_row, complete_message, complete_row, get_complete_message,
}
use tersa_app.Store.Binding.Tokens.{calm}

-- an envelope that the constructors of its parts accept
pub record IsEnvelope (e : MessageEnvelope) : Type 0 where
  pub id_ok : new_identifier e.message_id ≡ ok e.message_id
  pub thread_ok : new_identifier e.thread_id ≡ ok e.thread_id
  pub from_ok : new_header_text e.from ≡ ok e.from
  pub subject_ok : new_header_text e.subject ≡ ok e.subject
  pub preview_ok : new_header_text e.preview ≡ ok e.preview
  pub time_ok : new_timestamp e.received_at ≡ ok e.received_at

-- the row under an identifier, if there is one, after it was written
abbrev written : MessageEnvelope → Option (List ℕ) → Option Row → Row
written e c none = inserted_row e c
written e c (some r) = updated_row e c r

find-upsert :
    (e : MessageEnvelope) (c : Option (List ℕ)) (rows : List Row)
    → find_row e.message_id (upsert_row e c rows) ≡ some (written e c (find_row e.message_id rows))
unfolding find_row upsert_row
find-upsert e c [] = ground (arith, text_eq_iff e.message_id e.message_id)
find-upsert e c (r ∷ rs) = ground (arith, find-upsert e c rs)

find-has_id :
    (id : MessageId) (rows : List Row) (r : Row) → find_row id rows ≡ some r → has_id id r ≡ true
unfolding find_row
find-has_id id [] r h = cc
find-has_id id (s ∷ rs) r h = ground (arith, find-has_id id rs r)

-- Whether a message is shown as unread: an earlier local read stays.
pub still_unread : Option Row → Bool → Bool
still_unread none b = b
still_unread (some r) b = if eq_ℤ r.unread (pos 0) then false else b

short_identifier : (t : Text) → new_identifier t ≡ ok t → ltb 256 (len t) ≡ false
unfolding new_identifier
short_identifier t h = ground arith

short_header : (t : Text) → new_header_text t ≡ ok t → ltb 1024 (len t) ≡ false
unfolding new_header_text
short_header t h = ground arith

-- a row with these columns decodes to this envelope
decode_written :
    (e : MessageEnvelope) (r : Row) (b : Bool)
    → IsEnvelope e
    → r.message_id ≡ some e.message_id
    → r.thread_id ≡ e.thread_id
    → r.sender ≡ e.from
    → r.subject ≡ e.subject
    → r.preview ≡ e.preview
    → r.received_at ≡ e.received_at
    → r.unread ≡ unread_value b
    → envelope_from_row r ≡ ok (record e { unread = b })
unfolding envelope_from_row
decode_written e r b v p1 p2 p3 p4 p5 p6 p7 = ground (
  arith,
  short_identifier e.message_id,
  short_identifier e.thread_id,
  short_header e.from,
  short_header e.subject,
  short_header e.preview,
)

written-decodes :
    (e : MessageEnvelope) (c : List ℕ) (old : Option Row)
    → IsEnvelope e
    → ((r : Row) → old ≡ some r → r.message_id ≡ some e.message_id)
    → envelope_from_row (written e (some c) old)
      ≡ ok (record e { unread = still_unread old e.unread })
unfolding still_unread inserted_row updated_row
written-decodes e c none v h = decode_written e _ _ v refl refl refl refl refl refl refl
written-decodes e c (some r) v h =
    decode_written e (updated_row e (some c) r) (still_unread (some r) e.unread) v (h r refl) refl
      refl refl refl refl (ground arith)

find-id :
    (id : MessageId) (rows : List Row) (r : Row)
    → find_row id rows ≡ some r
    → r.message_id ≡ some id
find-id id rows r h = has_id-eq id r (find-has_id id rows r h)

content-written :
    (e : MessageEnvelope) (c : List ℕ) (old : Option Row)
    → (written e (some c) old).content ≡ some c
unfolding inserted_row updated_row
content-written e c none = refl
content-written e c (some r) = refl

read_back :
    (m : Message) (s : Store)
    → (get_complete_message m.envelope.message_id (calm s)).0 ≡ elim s.poisoned [
      | true ↦ err storage
      | false ↦ complete_row (find_row m.envelope.message_id s.db.messages)
    ]
unfolding get_complete_message with_connection statement
read_back m s = ground arith

put_done :
    (m : Message) (s : Store)
    → (put m s).0 ≡ ok tt
    → ((put m s).1.poisoned ≡ false)
      × ((put m s).1.db.messages ≡ upsert_row m.envelope (some m.content) s.db.messages)
unfolding put with_connection transaction write_envelope statement
put_done m s h = (ground arith, ground arith)

complete_found :
    (m : Message) (old : Option Row)
    → IsEnvelope m.envelope
    → length m.content ≤ max_content_len
    → ((r : Row) → old ≡ some r → r.message_id ≡ some m.envelope.message_id)
    → complete_row (some (written m.envelope (some m.content) old))
      ≡ ok (
          some (record m {
            envelope = record m.envelope { unread = still_unread old m.envelope.unread };
          }))
unfolding complete_row complete_message new_content
complete_found m old v l h =
    ground (
      arith,
      written-decodes m.envelope m.content old v h,
      content-written m.envelope m.content old,
    )

-- A well-formed message that was put into the store is read back with its content, and is shown as
-- unread unless it or the row that it replaces was read already.
pub get-put_message :
    (m : Message) (s : Store)
    → IsEnvelope m.envelope
    → length m.content ≤ max_content_len
    → (put m s).0 ≡ ok tt
    → (get_complete_message m.envelope.message_id (calm (put m s).1)).0
      ≡ ok (
          some (record m {
            envelope = record m.envelope {
              unread =
                  still_unread (find_row m.envelope.message_id s.db.messages) m.envelope.unread;
            };
          }))
get-put_message m s v l h =
    let (healthy, rows) = put_done m s h in
    let e = m.envelope in
    ground (
      arith,
      read_back m (put m s).1,
      find-upsert e (some m.content) s.db.messages,
      complete_found m (find_row e.message_id s.db.messages) v l
          (find-id e.message_id s.db.messages),
    )
