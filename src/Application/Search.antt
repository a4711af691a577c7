-- ===== src/Application/Search.antt =====
-- crates/application/src/mailbox_search.rs: the search of the stored envelopes by a text of their
-- sender or subject.
pub mod Matches
use tersa_app.Prelude.{
  ℕ, suc, ◌+◌, Bool, true, false, not, ◌&&◌, ◌||◌, List, [], ◌∷◌, map, keep, take, any, is_empty,
  length, ltb, leb, in_range, if◌then◌else◌,
}
use tersa_app.Prelude.Result.{Result, ok, err}
use tersa_app.Prelude.Action.{Action, pure, ◌>>=◌}
use tersa_app.Prelude.Text.{Text, bytes, len, text_eq, is_control}
use tersa_app.Domain.Mailbox.{MessageEnvelope}
use tersa_app.Application.Mailbox.{MailboxStoreError, max_store_limit}
use tersa_app.Application.Metadata.{MailboxMetadataMessage, Reader, from_envelope}

abbrev pub max_query_len : ℕ
max_query_len = 256

pub data MailboxSearchQueryError : Type 0 where
  empty : MailboxSearchQueryError
  too_long : ℕ → MailboxSearchQueryError
  invalid_character : MailboxSearchQueryError

-- `MailboxSearchQuery::new`
unfoldable pub new_query : Text → Result MailboxSearchQueryError Text
new_query value =
    if is_empty value
    then err empty
    else if ltb max_query_len (len value)
    then err (too_long (len value))
    else if any is_control value
    then err invalid_character
    else ok value

pub record MailboxSearchDocument : Type 0 where
  pub account_id : Text
  pub query : Text
  pub limit : ℕ
  pub messages : List MailboxMetadataMessage

-- `u8::to_ascii_lowercase`
abbrev pub lower : ℕ → ℕ
lower b = if in_range b'A' b'Z' b then b + 32 else b

-- `eq_ignore_ascii_case`
unfoldable pub eq_ignore_ascii_case : List ℕ → List ℕ → Bool
eq_ignore_ascii_case a b = text_eq (map lower a) (map lower b)

-- `windows(width).any(p)`
unfoldable pub any_window : ℕ → (List ℕ → Bool) → List ℕ → Bool
any_window width p [] = false
any_window width p (b ∷ bs) =
    let rest = any_window width p bs in
    (leb width (suc (length bs)) && p (take width (b ∷ bs))) || rest

unfoldable pub contains_ascii_case_insensitive : Text → Text → Bool
unfolding any_window eq_ignore_ascii_case
contains_ascii_case_insensitive text query =
    any_window (len query) (λ window. eq_ignore_ascii_case window (bytes query)) (bytes text)

unfoldable pub matches_query : MessageEnvelope → Text → Bool
unfolding contains_ascii_case_insensitive
matches_query envelope query =
    contains_ascii_case_insensitive envelope.from query
    || contains_ascii_case_insensitive envelope.subject query

-- the document of the matches among the envelopes
unfoldable pub search_document : Text → Text → ℕ → List MessageEnvelope → MailboxSearchDocument
unfolding matches_query from_envelope
search_document account query limit envelopes = record {
  account_id = account;
  query = query;
  limit = limit;
  messages =
      map from_envelope (take limit (keep (λ envelope. matches_query envelope query) envelopes));
}

unfoldable pub search_metadata :
    {W : Type 0} → Reader W → Text → Text → ℕ → Action W MailboxStoreError MailboxSearchDocument
unfolding search_document
search_metadata reader account query limit =
    reader.list_envelopes account max_store_limit >>= λ envelopes.
    pure (search_document account query limit envelopes)
