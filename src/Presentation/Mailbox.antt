-- ===== src/Presentation/Mailbox.antt =====
-- crates/presentation/src/mailbox.rs: what is shown of a cached message. An index into a text counts
-- its characters; each text that is searched for is ASCII, so the slices are those of the source.
pub mod Quoted
pub mod Search
pub mod Display
pub mod Finds
pub mod Parts
use tersa_app.Prelude.{
  ℕ, suc, ◌+◌, Bool, true, false, not, ◌&&◌, ◌||◌, Option, none, some, List, [], ◌∷◌, ◌++◌, take,
  is_empty, ltb, if◌then◌else◌, arith, min,
}
use tersa_app.Prelude.Tests.{◌==◌}
use tersa_app.Prelude.Text.{Text, codes, trim, trim_start, is_whitespace}
use tersa_app.Prelude.Utf8.{from_utf8_lossy}
use tersa_app.Presentation.Mailbox.Quoted.{decode_quoted_printable}
use tersa_app.Presentation.Mailbox.Search.{
  to_ascii_lowercase, drop, find, contains, is_found, take_until, replace_crlf, replace_cr,
}

abbrev pub max_display_body_chars : ℕ
max_display_body_chars = 32768

abbrev pub cut : ℕ → Text → Option ℕ → Option (Text × Text)
cut width message none = none
cut width message (some index) = some (take index message, drop (index + width) message)

abbrev pub or_else : {A : Type 0} → Option A → Option A → Option A
or_else (some a) other = some a
or_else none other = other

abbrev pub or_whole : Text → Option (Text × Text) → Text × Text
or_whole message (some parts) = parts
or_whole message none = ([], message)

unfoldable pub strip_rfc5322_headers : Text → Text × Text
unfolding find
strip_rfc5322_headers message = or_whole message (
    or_else (cut 4 message (find (codes "\r\n\r\n") message))
      (cut 2 message (find (codes "\n\n") message)))

unfoldable pub part_is_base64 : Text → Bool
unfolding find
part_is_base64 headers =
    contains (codes "content-transfer-encoding: base64") (to_ascii_lowercase headers)

unfoldable pub part_is_quoted_printable : Text → Bool
unfolding find
part_is_quoted_printable headers =
    contains (codes "content-transfer-encoding: quoted-printable") (to_ascii_lowercase headers)

unfoldable pub looks_quoted_printable : Text → Bool
unfolding find
looks_quoted_printable body =
    contains (codes "=\r\n") body
    || contains (codes "=\n") body
    || contains (codes "=20") body
    || contains (codes "=3D") body
    || contains (codes "=C2=") body
    || contains (codes "=F0=") body

-- `strip_prefix('"').or_else(|| rest.strip_prefix('\'')).unwrap_or(rest)`
abbrev strip_quote : Text → Text
strip_quote [] = []
strip_quote (c ∷ rest) = if c == b'"' || c == 39 then rest else c ∷ rest

abbrev nonempty : Text → Option Text
nonempty boundary = if is_empty boundary then none else some boundary

abbrev boundary_at : Text → Option ℕ → Option Text
boundary_at text none = none
boundary_at text (some index) = nonempty (
    trim (
      take_until
        (λ c. c == b'"' || c == 39 || c == b';' || c == b'\r' || c == b'\n' || is_whitespace c)
        (strip_quote (trim_start (drop (index + 9) text)))))

unfoldable pub mime_boundary : Text → Option Text
unfolding find take_until
mime_boundary headers_or_message =
    boundary_at headers_or_message
      (find (codes "boundary=") (to_ascii_lowercase headers_or_message))

-- `&part_body[..end]`, where there is an end
abbrev pub up_to : Option ℕ → Text → Text
up_to none body = body
up_to (some index) body = take index body

-- `filter(|&at| at > 0)`
abbrev later : Option ℕ → Option ℕ
later none = none
later (some index) = if index == 0 then none else some index

abbrev earlier : Option ℕ → Option ℕ → Option ℕ
earlier none j = j
earlier (some i) none = some i
earlier (some i) (some j) = some (min i j)

-- the first sibling part, after the start
unfoldable pub sibling : Text → Option ℕ
unfolding find
sibling part_lower = earlier (later (find (codes "content-type: text/html") part_lower)) (
    earlier (later (find (codes "content-type: text/plain") part_lower))
      (later (find (codes "------=") part_lower)))

-- the body of a part, up to the boundary or to a sibling part
unfoldable pub bounded_body : Option Text → Text → Text
unfolding sibling
bounded_body none part_body = up_to (sibling (to_ascii_lowercase part_body)) part_body
bounded_body (some boundary) part_body = up_to (find (codes "--" ++ boundary) part_body) part_body

abbrev pub html_marker : Text
html_marker = codes "content-type: text/html"

abbrev pub extract_at : Text → Bool → Option ℕ → Option (Text × Text)
extract_at message fallback_top_level (some part_at) =
    let top = strip_rfc5322_headers message in
    let part = strip_rfc5322_headers (drop part_at message) in
    some (part.0, bounded_body (or_else (mime_boundary top.0) (mime_boundary message)) part.1)
extract_at message fallback_top_level none =
    let top = strip_rfc5322_headers message in
    let top_is_html = contains html_marker (to_ascii_lowercase top.0) in
    if fallback_top_level
    then (if top_is_html then none else some top)
    else if top_is_html
    then some top
    else none

unfoldable pub extract_mime_part : Text → Text → Bool → Option (Text × Text)
unfolding strip_rfc5322_headers mime_boundary bounded_body
extract_mime_part message content_type_marker fallback_top_level =
    extract_at message fallback_top_level (find content_type_marker (to_ascii_lowercase message))

-- the normalized, trimmed and bounded text
unfoldable pub bounded_text : Text → Text
unfolding replace_crlf
bounded_text decoded = take max_display_body_chars (trim (replace_cr (replace_crlf decoded)))

abbrev pub decode_part : Option (Text × Text) → Text
decode_part none = []
decode_part (some (part_headers, part_body)) =
    if part_is_quoted_printable part_headers || looks_quoted_printable part_body
    then bounded_text (decode_quoted_printable part_body)
    else if part_is_base64 part_headers
    then []
    else bounded_text part_body

unfoldable pub decode_mime_text_part : Text → Text → Bool → Text
unfolding extract_mime_part part_is_quoted_printable looks_quoted_printable part_is_base64
    decode_quoted_printable bounded_text
decode_mime_text_part message content_type_marker fallback_top_level =
    decode_part (extract_mime_part message content_type_marker fallback_top_level)

unfoldable pub display_text_from_rfc5322 : List ℕ → Text
unfolding decode_mime_text_part
display_text_from_rfc5322 raw =
    decode_mime_text_part (from_utf8_lossy raw) (codes "content-type: text/plain") true

unfoldable pub display_html_from_rfc5322 : List ℕ → Text
unfolding decode_mime_text_part
display_html_from_rfc5322 raw =
    decode_mime_text_part (from_utf8_lossy raw) (codes "content-type: text/html") false
