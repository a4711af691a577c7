-- ===== src/Presentation/Mailbox/Quoted.antt =====
-- crates/presentation/src/mailbox.rs: the quoted-printable decoder. `(hi << 4) | lo` is a sum, as
-- the two nibbles do not overlap.
use tersa_app.Prelude.{
  ℕ, suc, ◌+◌, ◌-◌, ◌*◌, ◌≤◌, ◌≡◌, refl, ap, ◌∙◌, Bool, true, false, not, ◌&&◌, ◌||◌, List, [], ◌∷◌,
  all, length, in_range, if◌then◌else◌, ltb, arith,
}
use tersa_app.Prelude.Tests.{◌==◌}
use tersa_app.Prelude.Text.{Text, bytes}
use tersa_app.Prelude.Utf8.{from_utf8_lossy, is_scalar, from_utf8_lossy-bytes}

-- `u8::is_ascii_hexdigit`
abbrev pub is_ascii_hexdigit : ℕ → Bool
is_ascii_hexdigit b = in_range b'0' b'9' b || in_range b'A' b'F' b || in_range b'a' b'f' b

unfoldable pub hex_nibble : ℕ → ℕ
hex_nibble byte =
    if in_range b'0' b'9' byte
    then byte - b'0'
    else if in_range b'a' b'f' byte
    then byte - b'a' + 10
    else if in_range b'A' b'F' byte
    then byte - b'A' + 10
    else 0

-- the loop of `decode_quoted_printable`, on the bytes that are left
unfoldable pub decode_bytes : List ℕ → List ℕ
unfolding hex_nibble
decode_bytes [] = []
decode_bytes (a ∷ []) = a ∷ []
decode_bytes (a ∷ b ∷ []) =
    let one = decode_bytes (b ∷ []) in if a == b'=' && b == b'\n' then [] else a ∷ one
decode_bytes (a ∷ b ∷ c ∷ rest) =
    let one = decode_bytes (b ∷ c ∷ rest) in
    let two = decode_bytes (c ∷ rest) in
    let three = decode_bytes rest in
    if not (a == b'=')
    then a ∷ one
    else if b == b'\n'
    then two
    else if b == b'\r' && c == b'\n'
    then three
    else if is_ascii_hexdigit b && is_ascii_hexdigit c
    then (hex_nibble b * 16 + hex_nibble c) ∷ three
    else a ∷ one

unfoldable pub decode_quoted_printable : Text → Text
unfolding decode_bytes
decode_quoted_printable input = from_utf8_lossy (decode_bytes (bytes input))

-- the reference: the hexadecimal digit of a number below sixteen, in capitals or not
abbrev pub digit : Bool → ℕ → ℕ
digit capital n = if ltb n 10 then n + 48 else if capital then n + 55 else n + 87

-- the tokens of a quoted-printable body; an escaped byte has two halves, each with the case of its
-- digit
pub data Token : Type 0 where
  literal : ℕ → Token
  escaped : Bool → ℕ → Bool → ℕ → Token
  soft_lf : Token
  soft_crlf : Token

abbrev pub wire : List Token → List ℕ
wire [] = []
wire (literal b ∷ ts) = b ∷ wire ts
wire (escaped c h d l ∷ ts) = b'=' ∷ digit c h ∷ digit d l ∷ wire ts
wire (soft_lf ∷ ts) = b'=' ∷ b'\n' ∷ wire ts
wire (soft_crlf ∷ ts) = b'=' ∷ b'\r' ∷ b'\n' ∷ wire ts

-- what the tokens stand for
abbrev pub meaning : List Token → List ℕ
meaning [] = []
meaning (literal b ∷ ts) = b ∷ meaning ts
meaning (escaped c h d l ∷ ts) = (h * 16 + l) ∷ meaning ts
meaning (soft_lf ∷ ts) = meaning ts
meaning (soft_crlf ∷ ts) = meaning ts

-- an equals sign is never literal, and the halves of an escaped byte are below sixteen
abbrev pub is_token : Token → Bool
is_token (literal b) = not (b == b'=')
is_token (escaped c h d l) = ltb h 16 && ltb l 16
is_token soft_lf = true
is_token soft_crlf = true

decode_literal :
    (b : ℕ) (bs : List ℕ) → not (b == b'=') ≡ true → decode_bytes (b ∷ bs) ≡ b ∷ decode_bytes bs
unfolding decode_bytes
decode_literal b [] h = refl
decode_literal b (c ∷ []) h = ground arith
decode_literal b (c ∷ d ∷ bs) h = ground arith

decode_soft_lf : (bs : List ℕ) → decode_bytes (b'=' ∷ b'\n' ∷ bs) ≡ decode_bytes bs
unfolding decode_bytes
decode_soft_lf [] = refl
decode_soft_lf (b ∷ bs) = refl

hex_nibble-digit :
    (capital : Bool) (n : ℕ)
    → ltb n 16 ≡ true
    → (is_ascii_hexdigit (digit capital n) ≡ true) × (hex_nibble (digit capital n) ≡ n)
unfolding hex_nibble
hex_nibble-digit capital n h = ground arith

decode_escaped :
    (h l : ℕ) (bs : List ℕ)
    → is_ascii_hexdigit h && is_ascii_hexdigit l ≡ true
    → decode_bytes (b'=' ∷ h ∷ l ∷ bs) ≡ (hex_nibble h * 16 + hex_nibble l) ∷ decode_bytes bs
unfolding decode_bytes
decode_escaped h l bs d = ground arith

-- A sequence of well-formed tokens decodes to what it stands for: literal bytes other than the
-- equals sign, escapes with digits of either case, and soft line breaks of either kind, which vanish.
pub decode_bytes-wire :
    (ts : List Token) → all is_token ts ≡ true → decode_bytes (wire ts) ≡ meaning ts
unfolding decode_bytes
decode_bytes-wire [] h = refl
decode_bytes-wire (literal b ∷ ts) h =
    decode_literal b (wire ts) (ground arith)
    ∙ ap (λ bs. b ∷ bs) (decode_bytes-wire ts (ground arith))
decode_bytes-wire (escaped c d k e ∷ ts) h =
    let (high, high_value) = hex_nibble-digit c d (ground arith) in
    let (low, low_value) = hex_nibble-digit k e (ground arith) in
    decode_escaped (digit c d) (digit k e) (wire ts) (rw (high, low) refl)
    ∙ ap (λ n. (n * 16 + hex_nibble (digit k e)) ∷ decode_bytes (wire ts)) high_value
    ∙ ap (λ n. (d * 16 + n) ∷ decode_bytes (wire ts)) low_value
    ∙ ap (λ bs. (d * 16 + e) ∷ bs) (decode_bytes-wire ts (ground arith))
decode_bytes-wire (soft_lf ∷ ts) h = decode_soft_lf (wire ts) ∙ decode_bytes-wire ts h
decode_bytes-wire (soft_crlf ∷ ts) h = decode_bytes-wire ts h

length-branches :
    (p q r s : Bool) (a v : ℕ) (one two three : List ℕ) (n : ℕ)
    → length one ≤ suc (suc n)
    → length two ≤ suc n
    → length three ≤ n
    → length (
        if p
        then a ∷ one
        else if q
        then two
        else if r
        then three
        else if s
        then v ∷ three
        else a ∷ one)
      ≤ suc (suc (suc n))
length-branches true q r s a v one two three n h k l = omega (arith, h)
length-branches false true r s a v one two three n h k l = omega (arith, k)
length-branches false false true s a v one two three n h k l = omega (arith, l)
length-branches false false false true a v one two three n h k l = omega (arith, l)
length-branches false false false false a v one two three n h k l = omega (arith, h)

-- Decoding never lengthens.
pub length-decode_bytes : (bs : List ℕ) → length (decode_bytes bs) ≤ length bs
unfolding decode_bytes
length-decode_bytes [] = omega arith
length-decode_bytes (a ∷ []) = omega arith
length-decode_bytes (a ∷ b ∷ []) = ground (arith, length-decode_bytes (b ∷ []))
length-decode_bytes (a ∷ b ∷ c ∷ rest) =
    length-branches (not (a == b'=')) (b == b'\n') (b == b'\r' && c == b'\n')
      (is_ascii_hexdigit b && is_ascii_hexdigit c) a (hex_nibble b * 16 + hex_nibble c)
      (decode_bytes (b ∷ c ∷ rest)) (decode_bytes (c ∷ rest)) (decode_bytes rest) (length rest)
      (length-decode_bytes (b ∷ c ∷ rest)) (length-decode_bytes (c ∷ rest))
      (length-decode_bytes rest)

-- Whatever quoted-printable encoding of a text a body is, with literal bytes other than the equals
-- sign, escapes with digits of either case and soft line breaks of either kind, the body decodes to
-- the text.
pub decode_quoted_printable_lem :
    (body text : Text) (ts : List Token)
    → bytes body ≡ wire ts
    → all is_token ts ≡ true
    → meaning ts ≡ bytes text
    → all is_scalar text ≡ true
    → decode_quoted_printable body ≡ text
unfolding decode_quoted_printable
decode_quoted_printable_lem body text ts encoded well_formed means valid =
    ap (λ bs. from_utf8_lossy (decode_bytes bs)) encoded
    ∙ ap from_utf8_lossy (decode_bytes-wire ts well_formed ∙ means)
    ∙ from_utf8_lossy-bytes text valid
