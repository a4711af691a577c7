-- ===== src/Presentation/Views.antt =====
-- crates/presentation/src/mailbox.rs: the view models, projected from the documents.
use tersa_app.Prelude.{ℕ, Bool, Option, none, some, List, map, is_empty, if◌then◌else◌}
use tersa_app.Prelude.Int.{ℤ}
use tersa_app.Prelude.Result.{Result, ok, err}
use tersa_app.Prelude.Text.{Text}
use tersa_app.Application.Metadata.{
  MailboxMetadataCommand, inbox, thread, MailboxMetadataMessage, MailboxMetadataDocument,
}
use tersa_app.Application.Search.{MailboxSearchDocument}
use tersa_app.Presentation.Mailbox.{display_text_from_rfc5322, display_html_from_rfc5322}

pub data MailboxViewModelError : Type 0 where
  unexpected_command : MailboxViewModelError

pub record MessageRowViewModel : Type 0 where
  pub message_id : Text
  pub thread_id : Text
  pub from : Text
  pub subject : Text
  pub preview : Text
  pub body_text : Option Text
  pub body_html : Option Text
  pub received_at_millis : ℤ
  pub unread : Bool

unfoldable pub from_message : MailboxMetadataMessage → MessageRowViewModel
from_message message = record {
  message_id = message.message_id;
  thread_id = message.thread_id;
  from = message.from;
  subject = message.subject;
  preview = message.preview;
  body_text = none;
  body_html = none;
  received_at_millis = message.received_at;
  unread = message.unread;
}

-- `if !text.is_empty() { row.body_text = Some(text); }`
abbrev pub shown : Text → Option Text
shown text = if is_empty text then none else some text

unfoldable pub from_message_with_body :
    MailboxMetadataMessage → Option (List ℕ) → MessageRowViewModel
unfolding from_message display_text_from_rfc5322 display_html_from_rfc5322
from_message_with_body message none = from_message message
from_message_with_body message (some bytes) = record (from_message message) {
  body_text = shown (display_text_from_rfc5322 bytes);
  body_html = shown (display_html_from_rfc5322 bytes);
}

unfoldable pub rows_from_document : MailboxMetadataDocument → List MessageRowViewModel
unfolding from_message
rows_from_document document = map from_message document.messages

pub record InboxViewModel : Type 0 where
  pub account_id : Text
  pub limit : ℕ
  pub rows : List MessageRowViewModel

pub record ThreadViewModel : Type 0 where
  pub account_id : Text
  pub thread_id : Text
  pub limit : ℕ
  pub rows : List MessageRowViewModel

pub record SearchViewModel : Type 0 where
  pub account_id : Text
  pub query : Text
  pub limit : ℕ
  pub rows : List MessageRowViewModel

abbrev inbox_rows :
    MailboxMetadataDocument → MailboxMetadataCommand → Result MailboxViewModelError InboxViewModel
inbox_rows document inbox = ok (record {
  account_id = document.account_id;
  limit = document.limit;
  rows = rows_from_document document;
})
inbox_rows document thread = err unexpected_command

-- `InboxViewModel::from_document`
unfoldable pub inbox_view : MailboxMetadataDocument → Result MailboxViewModelError InboxViewModel
unfolding rows_from_document
inbox_view document = inbox_rows document document.command

abbrev thread_rows :
    MailboxMetadataDocument
    → Text
    → MailboxMetadataCommand
    → Result MailboxViewModelError ThreadViewModel
thread_rows document thread_id thread = ok (record {
  account_id = document.account_id;
  thread_id = thread_id;
  limit = document.limit;
  rows = rows_from_document document;
})
thread_rows document thread_id inbox = err unexpected_command

-- `ThreadViewModel::from_document`
unfoldable pub thread_view :
    MailboxMetadataDocument → Text → Result MailboxViewModelError ThreadViewModel
unfolding rows_from_document
thread_view document thread_id = thread_rows document thread_id document.command

-- `SearchViewModel::from_document`
unfoldable pub search_view : MailboxSearchDocument → SearchViewModel
unfolding from_message
search_view document = record {
  account_id = document.account_id;
  query = document.query;
  limit = document.limit;
  rows = map from_message document.messages;
}
