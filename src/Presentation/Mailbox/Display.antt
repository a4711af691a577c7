-- ===== src/Presentation/Mailbox/Display.antt =====
-- What the displayed text of a message may hold, and where it comes from.
use tersa_app.Prelude.{
  ℕ, zero, suc, ◌≤◌, ◌≡◌, refl, Bool, true, false, not, ◌||◌, Option, none, some, List, [], ◌∷◌,
  take, all, length, length-take-le, if◌then◌else◌, arith,
}
use mathlib.Core.List.{reverse, reverse_aux}
use tersa_app.Prelude.Tests.{◌==◌}
use tersa_app.Prelude.Text.{Text, codes, trim, trim_start}
use tersa_app.Prelude.Utf8.{from_utf8_lossy}
use tersa_app.Presentation.Mailbox.Quoted.{decode_quoted_printable}
use tersa_app.Presentation.Mailbox.Search.{replace_crlf, replace_cr}
use tersa_app.Presentation.Mailbox.{
  bounded_text, decode_part, decode_mime_text_part, display_text_from_rfc5322,
  display_html_from_rfc5322, extract_mime_part, part_is_quoted_printable, looks_quoted_printable,
  part_is_base64,
}

module _ (p : ℕ → Bool) where
  all-take : (n : ℕ) (s : Text) → all p s ≡ true → all p (take n s) ≡ true
  all-take zero s h = refl
  all-take (suc n) [] h = refl
  all-take (suc n) (c ∷ s) h = ground (arith, all-take n s)

  all-trim_start : (s : Text) → all p s ≡ true → all p (trim_start s) ≡ true
  unfolding trim_start
  all-trim_start [] h = refl
  all-trim_start (c ∷ s) h = ground (arith, all-trim_start s)

  all-reverse_aux :
      (s acc : Text) → all p s ≡ true → all p acc ≡ true → all p (reverse_aux s acc) ≡ true
  all-reverse_aux [] acc h k = k
  all-reverse_aux (c ∷ s) acc h k = all-reverse_aux s (c ∷ acc) (ground arith) (ground arith)

  all-trim : (s : Text) → all p s ≡ true → all p (trim s) ≡ true
  unfolding trim
  all-trim s h =
      let start = trim_start s in
      let back = reverse start in
      all-reverse_aux (trim_start back) []
        (all-trim_start back (all-reverse_aux start [] (all-trim_start s h) refl)) refl

all-replace_cr : (s : Text) → all (λ c. not (c == b'\r')) (replace_cr s) ≡ true
all-replace_cr [] = refl
all-replace_cr (c ∷ s) = ground (arith, all-replace_cr s)

-- what a displayed body is: bounded, with no carriage return
pub record IsDisplayed (s : Text) : Type 0 where
  pub bounded : length s ≤ 32768
  pub lines : all (λ c. not (c == b'\r')) s ≡ true

bounded_text-IsDisplayed : (decoded : Text) → IsDisplayed (bounded_text decoded)
unfolding bounded_text
bounded_text-IsDisplayed decoded =
    let plain = λ (c : ℕ). not (c == b'\r') in
    record {
      bounded = length-take-le 32768 (trim (replace_cr (replace_crlf decoded)));
      lines = all-take plain 32768 (trim (replace_cr (replace_crlf decoded))) (
          all-trim plain (replace_cr (replace_crlf decoded))
            (all-replace_cr (replace_crlf decoded)));
    }

empty-IsDisplayed : IsDisplayed []
empty-IsDisplayed = record { bounded = omega arith; lines = refl }

if-IsDisplayed :
    (b : Bool) (s t : Text) → IsDisplayed s → IsDisplayed t → IsDisplayed (if b then s else t)
if-IsDisplayed true s t h k = h
if-IsDisplayed false s t h k = k

decode_part-IsDisplayed : (part : Option (Text × Text)) → IsDisplayed (decode_part part)
decode_part-IsDisplayed none = empty-IsDisplayed
decode_part-IsDisplayed (some (part_headers, part_body)) =
    if-IsDisplayed (part_is_quoted_printable part_headers || looks_quoted_printable part_body) _ _
      (bounded_text-IsDisplayed (decode_quoted_printable part_body))
      (if-IsDisplayed (part_is_base64 part_headers) _ _ empty-IsDisplayed
        (bounded_text-IsDisplayed part_body))

-- Whatever bytes are cached, what is displayed of them, as text or as HTML, has at most 32,768
-- characters and no carriage return.
pub display_from_rfc5322-IsDisplayed :
    (raw : List ℕ)
    → IsDisplayed (display_text_from_rfc5322 raw) × IsDisplayed (display_html_from_rfc5322 raw)
unfolding display_text_from_rfc5322 display_html_from_rfc5322 decode_mime_text_part
display_from_rfc5322-IsDisplayed raw = (
  decode_part-IsDisplayed
      (extract_mime_part (from_utf8_lossy raw) (codes "content-type: text/plain") true),
  decode_part-IsDisplayed
      (extract_mime_part (from_utf8_lossy raw) (codes "content-type: text/html") false),
)
