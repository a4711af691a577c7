-- ===== src/Application/Metadata.antt =====
-- crates/application/src/mailbox_metadata.rs: the metadata documents of an inbox and of a thread.
-- The reader is a port.
use tersa_app.Prelude.{ℕ, Bool, List, map}
use tersa_app.Prelude.Int.{ℤ}
use tersa_app.Prelude.Action.{Action, pure, ◌>>=◌}
use tersa_app.Prelude.Text.{Text}
use tersa_app.Domain.Mailbox.{MessageEnvelope}
use tersa_app.Application.Mailbox.{MailboxStoreError}

pub data MailboxMetadataCommand : Type 0 where
  inbox : MailboxMetadataCommand
  thread : MailboxMetadataCommand

pub record MailboxMetadataMessage : Type 0 where
  pub message_id : Text
  pub thread_id : Text
  pub from : Text
  pub subject : Text
  pub preview : Text
  pub received_at : ℤ
  pub unread : Bool

unfoldable pub from_envelope : MessageEnvelope → MailboxMetadataMessage
from_envelope envelope = record {
  message_id = envelope.message_id;
  thread_id = envelope.thread_id;
  from = envelope.from;
  subject = envelope.subject;
  preview = envelope.preview;
  received_at = envelope.received_at;
  unread = envelope.unread;
}

pub record MailboxMetadataDocument : Type 0 where
  pub command : MailboxMetadataCommand
  pub account_id : Text
  pub limit : ℕ
  pub messages : List MailboxMetadataMessage

-- `MailboxMetadataDocument::new`
unfoldable pub new_document :
    MailboxMetadataCommand → Text → ℕ → List MessageEnvelope → MailboxMetadataDocument
unfolding from_envelope
new_document command account_id limit envelopes = record {
  command = command;
  account_id = account_id;
  limit = limit;
  messages = map from_envelope envelopes;
}

-- `list_envelopes` and `thread_envelopes` of `MailboxReader`
pub record Reader (W : Type 0) : Type 0 where
  pub list_envelopes : Text → ℕ → Action W MailboxStoreError (List MessageEnvelope)
  pub thread_envelopes : Text → Text → ℕ → Action W MailboxStoreError (List MessageEnvelope)

module _ {W : Type 0} (reader : Reader W) where
  unfoldable pub inbox_metadata : Text → ℕ → Action W MailboxStoreError MailboxMetadataDocument
  unfolding new_document
  inbox_metadata account limit = reader.list_envelopes account limit >>= λ envelopes.
      pure (new_document inbox account limit envelopes)

  unfoldable pub thread_metadata :
      Text → Text → ℕ → Action W MailboxStoreError MailboxMetadataDocument
  unfolding new_document
  thread_metadata account thread_id limit =
      reader.thread_envelopes account thread_id limit >>= λ envelopes.
      pure (new_document thread account limit envelopes)
