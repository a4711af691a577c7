-- ===== src/Store/Reader.antt =====
-- adapters/store-sqlcipher/src/lib.rs: reading envelopes and complete messages. Every value that
-- is read is checked again, and what does not pass is reported as corruption.
pub mod RoundTrip
use tersa_app.Prelude.{
  ℕ, zero, suc, Bool, true, false, Option, none, some, List, [], ◌∷◌, length, take, ltb, keep,
  if◌then◌else◌,
}
use tersa_app.Prelude.Int.{ℤ, pos, negsuc}
use tersa_app.Prelude.Result
use tersa_app.Prelude.Result.{Result, ok, err, map_err}
use tersa_app.Prelude.Action.{Action, lift, ◌>>=◌}
use tersa_app.Prelude.Text.{Text, len, text_eq}
use tersa_app.Domain.Mailbox.{
  MessageId, ThreadId, MessageEnvelope, Message, MailboxInvariantError, max_content_len,
  max_identifier_len, max_header_len, new_identifier, new_header_text, new_timestamp, new_content,
}
use tersa_app.Application.Mailbox.{MailboxStoreError, corrupted}
use tersa_app.Store.Schema.{Row, Db}
use tersa_app.Store.Connection.{Store, query, with_connection}
use tersa_app.Store.Sql.{has_id, order_by, newest_first, oldest_first}

-- `CASE WHEN length(…) <= bound THEN column END`, then `row.get(…)`: NULL is refused
unfoldable pub bounded_column : ℕ → Option Text → Result MailboxStoreError Text
bounded_column bound none = err corrupted
bounded_column bound (some t) = if ltb bound (len t) then err corrupted else ok t

-- `match unread { 0 => false, 1 => true, _ => return Err(…) }`
unfoldable pub unread_flag : ℤ → Result MailboxStoreError Bool
unread_flag (pos zero) = ok false
unread_flag (pos (suc zero)) = ok true
unread_flag _ = err corrupted

-- `.map_err(|_error| MailboxStoreError::Corrupted)`
abbrev pub or_corrupted {ℓ} :
    {A : Type ℓ} → Result MailboxInvariantError A → Result MailboxStoreError A
or_corrupted = map_err (λ _. corrupted)

infixl 5 ◌>>=?◌
abbrev ◌>>=?◌ :
    {A B : Type 0}
    → Result MailboxStoreError A
    → (A → Result MailboxStoreError B)
    → Result MailboxStoreError B
m >>=? f = Result.◌>>=◌ m f

unfoldable pub envelope_from_row : Row → Result MailboxStoreError MessageEnvelope
unfolding bounded_column unread_flag
envelope_from_row row = bounded_column max_identifier_len row.message_id >>=? λ message_id.
    bounded_column max_identifier_len (some row.thread_id) >>=? λ thread_id.
    bounded_column max_header_len (some row.sender) >>=? λ sender.
    bounded_column max_header_len (some row.subject) >>=? λ subject.
    bounded_column max_header_len (some row.preview) >>=? λ preview.
    unread_flag row.unread >>=? λ unread.
    or_corrupted (new_identifier message_id) >>=? λ message_id.
    or_corrupted (new_identifier thread_id) >>=? λ thread_id.
    or_corrupted (new_header_text sender) >>=? λ sender.
    or_corrupted (new_header_text subject) >>=? λ subject.
    or_corrupted (new_header_text preview) >>=? λ preview.
    or_corrupted (new_timestamp row.received_at) >>=? λ received_at. ok (record {
      message_id = message_id;
      thread_id = thread_id;
      from = sender;
      subject = subject;
      preview = preview;
      received_at = received_at;
      unread = unread;
    })

-- `while let Some(row) = rows.next()? { result.push(envelope_from_row(row)?); }`
unfoldable pub decode_rows : List Row → Result MailboxStoreError (List MessageEnvelope)
decode_rows [] = ok []
decode_rows (row ∷ rows) = envelope_from_row row >>=? λ e. decode_rows rows >>=? λ es. ok (e ∷ es)

-- the rows that the two forms of the query select
unfoldable pub select_rows : Option ThreadId → ℕ → List Row → List Row
unfolding order_by newest_first oldest_first
select_rows none limit rows = take limit (order_by newest_first rows)
select_rows (some thread) limit rows =
    take limit (order_by oldest_first (keep (λ r. text_eq r.thread_id thread) rows))

unfoldable pub list_envelopes :
    Option ThreadId → ℕ → Action Store MailboxStoreError (List MessageEnvelope)
unfolding select_rows decode_rows
list_envelopes thread limit =
    with_connection
      (query (λ d. select_rows thread limit d.messages) >>= λ rows. lift (decode_rows rows))

unfoldable pub find_row : MessageId → List Row → Option Row
find_row id [] = none
find_row id (r ∷ rs) = if has_id id r then some r else find_row id rs

-- the eighth and ninth columns, and the message that they complete
unfoldable pub complete_message :
    MessageEnvelope → Option (List ℕ) → Result MailboxStoreError (Option Message)
complete_message envelope none = ok none
complete_message envelope (some content) =
    if ltb max_content_len (length content)
    then err corrupted
    else map_err (λ _. corrupted) (new_content content) >>=? λ content.
        ok (some (record { envelope = envelope; content = content }))

unfoldable pub complete_row : Option Row → Result MailboxStoreError (Option Message)
unfolding envelope_from_row complete_message
complete_row none = ok none
complete_row (some row) = envelope_from_row row >>=? λ e. complete_message e row.content

unfoldable pub get_complete_message : MessageId → Action Store MailboxStoreError (Option Message)
unfolding find_row complete_row
get_complete_message id =
    with_connection (query (λ d. find_row id d.messages) >>= λ row. lift (complete_row row))
