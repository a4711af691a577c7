-- ===== src/Application/Search/Matches.antt =====
-- What a search finds: the case-insensitive windows are a search of lower-case texts, and the
-- document has the first matches of the listing.
use tersa_app.Prelude.{
  ℕ, zero, suc, ◌≤◌, ◌≡◌, refl, ap, sym, ◌∙◌, Bool, true, false, ◌&&◌, ◌||◌, List, [], ◌∷◌, ◌++◌,
  map, keep, take, all, is_empty, length, length-take-le, leb, arith, Bool-cases, inl, inr, ◌⊎◌,
  subst,
}
use tersa_app.Prelude.Tests.{◌==◌}
use tersa_app.Prelude.Result.{Result, ok, err}
use tersa_app.Prelude.Action.{continue, pure, raise}
use tersa_app.Prelude.Text.{Text, bytes, text_eq}
use tersa_app.Domain.Mailbox.{MessageEnvelope}
use tersa_app.Application.Mailbox.{MailboxStoreError}
use tersa_app.Application.Metadata.{MailboxMetadataMessage, Reader, from_envelope}
use tersa_app.Application.Search.{
  lower, eq_ignore_ascii_case, any_window, contains_ascii_case_insensitive, matches_query,
  search_document, search_metadata, MailboxSearchDocument,
}

-- the reference: a list starts with another one, or a later part of it does
unfoldable pub starts : List ℕ → List ℕ → Bool
starts [] bs = true
starts (q ∷ qs) [] = false
starts (q ∷ qs) (b ∷ bs) = b == q && starts qs bs

unfoldable pub occurs : List ℕ → List ℕ → Bool
unfolding starts
occurs qs [] = starts qs []
occurs qs (b ∷ bs) = starts qs (b ∷ bs) || occurs qs bs

window-starts :
    (qs bs : List ℕ)
    → (leb (length qs) (length bs) && eq_ignore_ascii_case (take (length qs) bs) qs)
      ≡ starts (map lower qs) (map lower bs)
unfolding starts eq_ignore_ascii_case text_eq
window-starts [] bs = ground arith
window-starts (q ∷ qs) [] = ground arith
window-starts (q ∷ qs) (b ∷ bs) = ground (arith, window-starts qs bs)

window-occurs :
    (q : ℕ) (qs bs : List ℕ)
    → any_window (length (q ∷ qs)) (λ w. eq_ignore_ascii_case w (q ∷ qs)) bs
      ≡ occurs (map lower (q ∷ qs)) (map lower bs)
unfolding any_window occurs
window-occurs q qs [] = refl
window-occurs q qs (b ∷ bs) =
    ap (λ x. x || any_window (length (q ∷ qs)) (λ w. eq_ignore_ascii_case w (q ∷ qs)) bs)
      (window-starts (q ∷ qs) (b ∷ bs))
    ∙ ap (λ x. starts (map lower (q ∷ qs)) (map lower (b ∷ bs)) || x) (window-occurs q qs bs)

-- For a query that is not empty, the search by windows finds a text exactly when the lower-case bytes
-- of the query occur in a row among the lower-case bytes of the text.
pub contains_ascii_case_insensitive_lem :
    (text query : Text)
    → is_empty (bytes query) ≡ false
    → contains_ascii_case_insensitive text query
      ≡ occurs (map lower (bytes query)) (map lower (bytes text))
unfolding contains_ascii_case_insensitive
contains_ascii_case_insensitive_lem text query h = go (bytes query) h
  where
    go :
        (qs : List ℕ)
        → is_empty qs ≡ false
        → any_window (length qs) (λ w. eq_ignore_ascii_case w qs) (bytes text)
          ≡ occurs (map lower qs) (map lower (bytes text))
    go [] h = absurd (ground arith)
    go (q ∷ qs) h = window-occurs q qs (bytes text)

-- a message of a document matches the query
abbrev pub is_match : Text → MailboxMetadataMessage → Bool
is_match query message =
    contains_ascii_case_insensitive message.from query
    || contains_ascii_case_insensitive message.subject query

length-map : {A B : Type 0} (f : A → B) (xs : List A) → length (map f xs) ≡ length xs
length-map f [] = refl
length-map f (x ∷ xs) = ap suc (length-map f xs)

module _ (query : Text) where
  kept-match :
      (es : List MessageEnvelope)
      → all (λ e. is_match query (from_envelope e)) (keep (λ e. matches_query e query) es) ≡ true
  unfolding matches_query from_envelope
  kept-match [] = refl
  kept-match (e ∷ es) = elim (Bool-cases (matches_query e query)) [
    | inl fits ↦ rw fits (ground (arith, kept-match es))
    | inr other ↦ rw other (kept-match es)
  ]

  taken-match :
      (n : ℕ) (es : List MessageEnvelope)
      → all (λ e. is_match query (from_envelope e)) es ≡ true
      → all (is_match query) (map from_envelope (take n es)) ≡ true
  taken-match zero es h = refl
  taken-match (suc n) [] h = refl
  taken-match (suc n) (e ∷ es) h = ground (arith, taken-match n es)

-- what is left of a list behind the first elements
abbrev left : {A : Type 0} → ℕ → List A → List A
left zero xs = xs
left (suc n) [] = []
left (suc n) (x ∷ xs) = left n xs

take-left :
    {A B : Type 0} (f : A → B) (n : ℕ) (xs : List A)
    → map f (take n xs) ++ map f (left n xs) ≡ map f xs
take-left f zero xs = refl
take-left f (suc n) [] = refl
take-left f (suc n) (x ∷ xs) = ap (λ ys. f x ∷ ys) (take-left f n xs)

take-full-or-all :
    {A B : Type 0} (f : A → B) (n : ℕ) (xs : List A)
    → (length (take n xs) ≡ n) ⊎ (map f (left n xs) ≡ [])
take-full-or-all f zero xs = inl refl
take-full-or-all f (suc n) [] = inr refl
take-full-or-all f (suc n) (x ∷ xs) = elim (take-full-or-all f n xs) [
  | inl full ↦ inl (ap suc full)
  | inr whole ↦ inr whole
]

same_match :
    (query : Text) (e : MessageEnvelope) → matches_query e query ≡ is_match query (from_envelope e)
unfolding matches_query from_envelope
same_match query e = refl

-- the matches of the envelopes are those of the messages
keep-matches :
    (query : Text) (es : List MessageEnvelope)
    → map from_envelope (keep (λ e. matches_query e query) es)
      ≡ keep (is_match query) (map from_envelope es)
keep-matches query [] = refl
keep-matches query (e ∷ es) = elim (Bool-cases (matches_query e query)) [
  | inl fits ↦
      rw (fits, sym (same_match query e) ∙ fits)
        (ap (λ ms. from_envelope e ∷ ms) (keep-matches query es))
  | inr other ↦ rw (other, sym (same_match query e) ∙ other) (keep-matches query es)
]

-- the first matches of a listing: each message matches, they are within the limit, and they are the
-- matches of the listing from the first one on, in its order, up to the limit or all of them
pub record IsFound (query : Text) (limit : ℕ) (listing : List MessageEnvelope)
    (messages : List MailboxMetadataMessage) : Type 0 where
  pub matching : all (is_match query) messages ≡ true
  pub few : length messages ≤ limit
  pub rest : List MailboxMetadataMessage
  pub first : messages ++ rest ≡ keep (is_match query) (map from_envelope listing)
  pub complete : (length messages ≡ limit) ⊎ (rest ≡ [])

search_document-IsFound :
    (account query : Text) (limit : ℕ) (listing : List MessageEnvelope)
    → IsFound query limit listing (search_document account query limit listing).messages
unfolding search_document
search_document-IsFound account query limit listing =
    let found = keep (λ e. matches_query e query) listing in
    let shown = length-map from_envelope (take limit found) in
    record {
      matching = taken-match query limit found (kept-match query listing);
      few = omega (arith, length-take-le limit found, shown);
      rest = map from_envelope (left limit found);
      first = take-left from_envelope limit found ∙ keep-matches query listing;
      complete = elim (take-full-or-all from_envelope limit found) [
        | inl full ↦ inl (shown ∙ full)
        | inr whole ↦ inr whole
      ];
    }

-- A search that answers has read the listing of the account up to 10,000 envelopes; each message of
-- its document matches the query, and they are the first matches of the listing, in its order: as many
-- as the limit, or fewer if the listing has no more.
pub search_metadata_lem :
    {W : Type 0} (reader : Reader W) (account query : Text) (limit : ℕ) (w : W)
    (document : MailboxSearchDocument)
    → (search_metadata reader account query limit w).0 ≡ ok document
    → (listing : List MessageEnvelope) × ((reader.list_envelopes account 10000 w).0 ≡ ok listing)
      × IsFound query limit listing document.messages
unfolding search_metadata
search_metadata_lem {W} reader account query limit w document h =
    go (reader.list_envelopes account 10000 w).0 (reader.list_envelopes account 10000 w).1 h
  where
    go :
        (r : Result MailboxStoreError (List MessageEnvelope)) (w' : W)
        → (continue {S = W} {E = MailboxStoreError}
            (λ es. pure (search_document account query limit es))
            raise
            r
            w').0
          ≡ ok document
        → (listing : List MessageEnvelope) × (r ≡ ok listing)
          × IsFound query limit listing document.messages
    go (err e) w' g = absurd (ground arith)
    go (ok listing) w' g =
        let same : search_document account query limit listing ≡ document = ground arith in
        (
          listing,
          refl,
          subst (λ d. IsFound query limit listing d.messages) same
              (search_document-IsFound account query limit listing),
        )
