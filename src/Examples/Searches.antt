-- ===== src/Examples/Searches.antt =====
-- The theorems on the search at concrete inputs.
use tersa_app.Prelude.{◌≡◌, refl, true, false, List, [], ◌∷◌, map, is_empty}
use tersa_app.Prelude.Int.{pos}
use tersa_app.Prelude.Result.{ok}
use tersa_app.Prelude.Text.{Text, codes, bytes, encode}
use tersa_app.Domain.Mailbox.{MessageEnvelope}
use tersa_app.Application.Metadata.{Reader}
use tersa_app.Application.Search.{
  contains_ascii_case_insensitive, search_metadata, search_document, MailboxSearchDocument, lower,
}
use tersa_app.Application.Search.Matches.{
  occurs, contains_ascii_case_insensitive_lem, IsFound, search_metadata_lem,
}

query-nonempty : is_empty (bytes (codes "aB")) ≡ false
unfolding bytes encode
query-nonempty = refl

contains_ascii_case_insensitive_lem_example :
    contains_ascii_case_insensitive (codes "xAbc") (codes "aB")
    ≡ occurs (map lower (bytes (codes "aB"))) (map lower (bytes (codes "xAbc")))
contains_ascii_case_insensitive_lem_example =
    contains_ascii_case_insensitive_lem (codes "xAbc") (codes "aB") query-nonempty

abbrev envelope : Text → MessageEnvelope
envelope subject = record {
  message_id = codes "m";
  thread_id = codes "t";
  from = codes "someone";
  subject = subject;
  preview = [];
  received_at = pos 5;
  unread = true;
}

abbrev listing : List MessageEnvelope
listing = envelope (codes "Hello") ∷ envelope (codes "bye") ∷ envelope (codes "oh HELL") ∷ []

abbrev reader : Reader (Unit {0})
reader = record {
  list_envelopes = λ account limit w. (ok listing, w);
  thread_envelopes = λ account thread limit w. (ok [], w);
}

abbrev document : MailboxSearchDocument
document = search_document (codes "a") (codes "hell") 5 listing

searched : (search_metadata reader (codes "a") (codes "hell") 5 tt).0 ≡ ok document
unfolding search_metadata
searched = refl

search_metadata_lem_example :
    (found : List MessageEnvelope) × ((reader.list_envelopes (codes "a") 10000 tt).0 ≡ ok found)
    × IsFound (codes "hell") 5 found document.messages
search_metadata_lem_example =
    search_metadata_lem reader (codes "a") (codes "hell") 5 tt document searched
