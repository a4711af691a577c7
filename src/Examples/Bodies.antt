-- ===== src/Examples/Bodies.antt =====
-- The theorems on displayed bodies at concrete inputs.
use tersa_app.Presentation.Mailbox.Search.{find}
use tersa_app.Prelude.{◌↔◌, ◌≡◌, refl, true, false, [], ◌∷◌, ◌++◌, List}
use tersa_app.Prelude.Text.{Text, codes, bytes, encode, trim}
use tersa_app.Prelude.Utf8.{from_utf8_lossy, from_utf8_lossy-bytes}
use tersa_app.Presentation.Mailbox.Quoted.{
  Token, escaped, soft_lf, soft_crlf, wire, meaning, decode_quoted_printable,
  decode_quoted_printable_lem,
}
use tersa_app.Presentation.Mailbox.Search.{contains}
use tersa_app.Presentation.Mailbox.{
  display_text_from_rfc5322, display_html_from_rfc5322, strip_rfc5322_headers,
}
use tersa_app.Presentation.Mailbox.Display.{IsDisplayed, display_from_rfc5322-IsDisplayed}
use tersa_app.Presentation.Mailbox.Parts.{IsSplit, at_lf, strip_rfc5322_headers_iff}

from_utf8_lossy-bytes_example :
    from_utf8_lossy (bytes (0x41 ∷ 0xE9 ∷ 0x20AC ∷ 0x1F600 ∷ []))
    ≡ 0x41 ∷ 0xE9 ∷ 0x20AC ∷ 0x1F600 ∷ []
from_utf8_lossy-bytes_example = from_utf8_lossy-bytes (0x41 ∷ 0xE9 ∷ 0x20AC ∷ 0x1F600 ∷ []) refl

-- "é=" over two soft line breaks
abbrev body : Text
body = codes "=C3=\r\n=a9=\n=3D"

abbrev tokens : List Token
tokens =
    escaped true 12 true 3
    ∷ soft_crlf
    ∷ escaped false 10 false 9
    ∷ soft_lf
    ∷ escaped true 3 true 13
    ∷ []

encoded : bytes body ≡ wire tokens
unfolding bytes encode
encoded = refl

means : meaning tokens ≡ bytes (0xE9 ∷ b'=' ∷ [])
unfolding bytes encode
means = refl

decode_quoted_printable_lem_example : decode_quoted_printable body ≡ 0xE9 ∷ b'=' ∷ []
decode_quoted_printable_lem_example =
    decode_quoted_printable_lem body (0xE9 ∷ b'=' ∷ []) tokens encoded refl means refl

abbrev message : Text
message = codes "Subject: x\r\n\r\n a\r\nb=20 "

-- the message is displayed with its lines normalized
displayed : display_text_from_rfc5322 (bytes message) ≡ codes "a\nb"
unfolding display_text_from_rfc5322 bytes from_utf8_lossy encode trim
displayed = refl

display_from_rfc5322-IsDisplayed_example :
    IsDisplayed (display_text_from_rfc5322 (bytes message))
    × IsDisplayed (display_html_from_rfc5322 (bytes message))
display_from_rfc5322-IsDisplayed_example = display_from_rfc5322-IsDisplayed (bytes message)

-- a CRLF blank line is looked for in the whole message, and there is none
no_crlf_line : contains (codes "\r\n\r\n") (codes "Subject: x\n\nb\n\nc") ≡ false
unfolding find
no_crlf_line = refl

no_blank_line : contains (codes "\n\n") (codes "Subject: x" ++ codes "\n") ≡ false
unfolding find
no_blank_line = refl

message-IsSplit : IsSplit (codes "Subject: x\n\nb\n\nc") (codes "Subject: x") (codes "b\n\nc")
message-IsSplit = at_lf no_crlf_line no_blank_line refl

strip_rfc5322_headers_iff_example :
    (strip_rfc5322_headers (codes "Subject: x\n\nb\n\nc") ≡ (codes "Subject: x", codes "b\n\nc"))
    ↔ IsSplit (codes "Subject: x\n\nb\n\nc") (codes "Subject: x") (codes "b\n\nc")
strip_rfc5322_headers_iff_example =
    strip_rfc5322_headers_iff (codes "Subject: x\n\nb\n\nc") (codes "Subject: x") (codes "b\n\nc")

stripped_example :
    strip_rfc5322_headers (codes "Subject: x\n\nb\n\nc") ≡ (codes "Subject: x", codes "b\n\nc")
stripped_example =
    (strip_rfc5322_headers_iff (codes "Subject: x\n\nb\n\nc") (codes "Subject: x")
        (codes "b\n\nc")).1
      message-IsSplit
