-- ===== src/Presentation/Mailbox/Parts.antt =====
-- The headers and the parts of a message.
use tersa_app.Prelude.{
  inl, inr, Option-cases, subst, ◌↔◌, ℕ, suc, ◌+◌, ◌≡◌, refl, ap, ◌∙◌, false, Option, none, some,
  [], ◌∷◌, ◌++◌, take, length, arith,
}
use tersa_app.Prelude.Text.{Text, codes}
use tersa_app.Presentation.Mailbox.Search.{drop, find, contains, is_found}
use tersa_app.Presentation.Mailbox.{strip_rfc5322_headers}
use tersa_app.Presentation.Mailbox.Finds.{find-append, find-IsFirst}

unfound-none : (o : Option ℕ) → is_found o ≡ false → o ≡ none
unfound-none none h = refl
unfound-none (some i) h = absurd (ground arith)

take-append : (h x : Text) → take (length h) (h ++ x) ≡ h
take-append [] x = refl
take-append (c ∷ h) x = ap (λ t. c ∷ t) (take-append h x)

drop-append : (h x : Text) (k : ℕ) → drop (length h + k) (h ++ x) ≡ drop k x
drop-append [] x k = let none_dropped : 0 + k ≡ k = omega arith in ap (λ n. drop n x) none_dropped
drop-append (c ∷ h) x k =
    let one_more : suc (length h) + k ≡ suc (length h + k) = omega arith in
    ap (λ n. drop n (c ∷ (h ++ x))) one_more ∙ drop-append h x k

-- how a message has headers and a body: at its first CRLF blank line, or, where it has none, at its
-- first LF blank line, or not at all
pub data IsSplit (message headers body : Text) : Type 0 where
  at_crlf :
      contains (codes "\r\n\r\n") (headers ++ codes "\r\n\r") ≡ false
      → message ≡ headers ++ (codes "\r\n\r\n" ++ body)
      → IsSplit message headers body
  at_lf :
      contains (codes "\r\n\r\n") message ≡ false
      → contains (codes "\n\n") (headers ++ codes "\n") ≡ false
      → message ≡ headers ++ (codes "\n\n" ++ body)
      → IsSplit message headers body
  whole :
      contains (codes "\r\n\r\n") message ≡ false
      → contains (codes "\n\n") message ≡ false
      → headers ≡ []
      → body ≡ message
      → IsSplit message headers body

split_message :
    (message headers body : Text)
    → IsSplit message headers body
    → strip_rfc5322_headers message ≡ (headers, body)
unfolding strip_rfc5322_headers
split_message message headers body (at_crlf first e) =
    rw (e, find-append (codes "\r\n\r") b'\n' headers body first)
      (rw (take-append headers (codes "\r\n\r\n" ++ body))
        (rw (drop-append headers (codes "\r\n\r\n" ++ body) 4) refl))
split_message message headers body (at_lf no_crlf first e) =
    rw (unfound-none (find (codes "\r\n\r\n") message) no_crlf) (
      rw (e, find-append (codes "\n") b'\n' headers body first)
        (rw (take-append headers (codes "\n\n" ++ body))
          (rw (drop-append headers (codes "\n\n" ++ body) 2) refl)))
split_message message headers body (whole no_crlf no_lf none_before all_body) =
    rw (unfound-none (find (codes "\r\n\r\n") message) no_crlf)
      (rw (unfound-none (find (codes "\n\n") message) no_lf) (rw (none_before, all_body) refl))

crlf-IsSplit :
    (message : Text) (i : ℕ)
    → find (codes "\r\n\r\n") message ≡ some i
    → IsSplit message (strip_rfc5322_headers message).0 (strip_rfc5322_headers message).1
unfolding strip_rfc5322_headers
crlf-IsSplit message i h =
    let f = find-IsFirst (codes "\r\n\r") b'\n' message i h in rw h (at_crlf f.unfound f.there)

lf-IsSplit :
    (message : Text) (i : ℕ)
    → find (codes "\r\n\r\n") message ≡ none
    → find (codes "\n\n") message ≡ some i
    → IsSplit message (strip_rfc5322_headers message).0 (strip_rfc5322_headers message).1
unfolding strip_rfc5322_headers
lf-IsSplit message i absent h =
    let f = find-IsFirst (codes "\n") b'\n' message i h in
    rw (absent, h) (at_lf (ap is_found absent) f.unfound f.there)

whole-IsSplit :
    (message : Text)
    → find (codes "\r\n\r\n") message ≡ none
    → find (codes "\n\n") message ≡ none
    → IsSplit message (strip_rfc5322_headers message).0 (strip_rfc5322_headers message).1
unfolding strip_rfc5322_headers
whole-IsSplit message absent h =
    rw (absent, h) (whole (ap is_found absent) (ap is_found h) refl refl)

strip-IsSplit :
    (message : Text)
    → IsSplit message (strip_rfc5322_headers message).0 (strip_rfc5322_headers message).1
strip-IsSplit message = elim (Option-cases (find (codes "\r\n\r\n") message)) [
  | inr (i, h) ↦ crlf-IsSplit message i h
  | inl absent ↦ elim (Option-cases (find (codes "\n\n") message)) [
    | inr (i, h) ↦ lf-IsSplit message i absent h
    | inl h ↦ whole-IsSplit message absent h
  ]
]

-- The headers and the body that every message is stripped into are what is before and behind its first
-- CRLF blank line; if it has none, then its first LF blank line; and if it has neither, nothing and
-- the whole message.
pub strip_rfc5322_headers_iff :
    (message headers body : Text)
    → (strip_rfc5322_headers message ≡ (headers, body)) ↔ IsSplit message headers body
strip_rfc5322_headers_iff message headers body = (
  λ e. subst (λ p. IsSplit message p.0 p.1) e (strip-IsSplit message),
  split_message message headers body,
)
