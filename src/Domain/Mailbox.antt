-- ===== src/Domain/Mailbox.antt =====
-- crates/domain/src/mailbox.rs: identifiers, header text, timestamps, envelopes and messages.
-- A newtype over `String` is its text, and is built by the `new_…` function that checks it.
pub mod Laws
use tersa_app.Prelude.{
  ℕ, ◌*◌, Bool, true, false, not, List, ltb, if◌then◌else◌, length, all, any, is_empty,
}
use tersa_app.Prelude.Result.{Result, ok, err, ◌>>=◌, ◌>>◌, guard}
use tersa_app.Prelude.Text.{Text, bytes, len, is_control, is_ascii_graphic}
use tersa_app.Prelude.Tests.{◌==◌}
use tersa_app.Prelude.Int.{ℤ, is_negative}

abbrev pub max_identifier_len : ℕ
max_identifier_len = 256

abbrev pub max_header_len : ℕ
max_header_len = 1024

-- `MessageContent::MAX_LEN`
abbrev pub max_content_len : ℕ
max_content_len = 64 * 1024 * 1024

pub data MailboxInvariantError : Type 0 where
  empty : MailboxInvariantError
  too_long : ℕ → ℕ → MailboxInvariantError
  invalid_character : MailboxInvariantError
  email_shaped_account_id : MailboxInvariantError
  negative_timestamp : MailboxInvariantError

pub data MessageContentError : Type 0 where
  too_large : ℕ → MessageContentError

unfoldable pub validate_identifier : Text → Result MailboxInvariantError (Unit {0})
validate_identifier value =
    if is_empty value
    then err empty
    else if ltb max_identifier_len (len value)
    then err (too_long (len value) max_identifier_len)
    else if not (all is_ascii_graphic (bytes value))
    then err invalid_character
    else ok tt

unfoldable pub validate_account_identifier : Text → Result MailboxInvariantError (Unit {0})
unfolding validate_identifier
validate_account_identifier value = do
  validate_identifier value
  guard (not (any (λ c. c == b'@') value)) email_shaped_account_id

abbrev pub AccountId : Type 0
AccountId = Text

abbrev pub MessageId : Type 0
MessageId = Text

abbrev pub ThreadId : Type 0
ThreadId = Text

unfoldable pub new_account_id : Text → Result MailboxInvariantError AccountId
unfolding validate_account_identifier
new_account_id value = do validate_account_identifier value; ok value

-- `MessageId::new` and `ThreadId::new`
unfoldable pub new_identifier : Text → Result MailboxInvariantError Text
unfolding validate_identifier
new_identifier value = do validate_identifier value; ok value

-- `UnixTimestampMillis::new`
unfoldable pub new_timestamp : ℤ → Result MailboxInvariantError ℤ
new_timestamp value = if is_negative value then err negative_timestamp else ok value

-- `HeaderText::new`
unfoldable pub new_header_text : Text → Result MailboxInvariantError Text
new_header_text value =
    if ltb max_header_len (len value)
    then err (too_long (len value) max_header_len)
    else if any is_control value
    then err invalid_character
    else ok value

pub record MessageEnvelope : Type 0 where
  pub message_id : MessageId
  pub thread_id : ThreadId
  pub from : Text
  pub subject : Text
  pub preview : Text
  pub received_at : ℤ
  pub unread : Bool

-- `MessageContent::new`
unfoldable pub new_content : List ℕ → Result MessageContentError (List ℕ)
new_content value =
    if ltb max_content_len (length value) then err (too_large (length value)) else ok value

pub record Message : Type 0 where
  pub envelope : MessageEnvelope
  pub content : List ℕ
