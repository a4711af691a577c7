-- ===== src/Prelude/Text.antt =====
-- Rust text. A `str` is its list of Unicode scalar values; its length is that of its UTF-8 bytes.
use Prim.Native.Nat.{ℕ, ◌+◌, ◌/◌, ◌%◌}
use Prim.Native.Char.{code}
use Prim.Native.String.{String}
use mathlib.Core.Path.{◌≡◌, refl}
use mathlib.Core.Logic.{◌↔◌}
use mathlib.Core.Bool.{Bool, true, false, ◌&&◌, ◌||◌}
use mathlib.Core.List.{List, [], ◌∷◌, ◌++◌, reverse}
use native.Mathlib.Omega.{arith}
use tersa_app.Prelude.Tests.{ltb, leb, ◌==◌, in_range, if◌then◌else◌}
use tersa_app.Prelude.Lists.{length, all, length-append}

abbrev pub Text : Type 0
Text = List ℕ

-- A literal of the source.
abbrev pub codes : String → Text
codes String.[] = []
codes (String.◌∷◌ c s) = code c ∷ codes s

-- the UTF-8 encoding of one scalar value
unfoldable pub encode : ℕ → List ℕ
encode c =
    if ltb c 0x80
    then c ∷ []
    else if ltb c 0x800
    then (0xC0 + c / 64) ∷ (0x80 + c % 64) ∷ []
    else if ltb c 0x10000
    then (0xE0 + c / 4096) ∷ (0x80 + c / 64 % 64) ∷ (0x80 + c % 64) ∷ []
    else (0xF0 + c / 262144) ∷ (0x80 + c / 4096 % 64) ∷ (0x80 + c / 64 % 64) ∷ (0x80 + c % 64) ∷ []

-- `as_bytes()`
unfoldable pub bytes : Text → List ℕ
bytes [] = []
bytes (c ∷ s) = encode c ++ bytes s

-- `len()`
abbrev pub len : Text → ℕ
len s = length (bytes s)

-- `==` on texts, and on byte strings
unfoldable pub text_eq : List ℕ → List ℕ → Bool
text_eq [] [] = true
text_eq (a ∷ s) (b ∷ t) = a == b && text_eq s t
text_eq _ _ = false

pub text_eq_iff : (s t : List ℕ) → (text_eq s t ≡ true) ↔ (s ≡ t)
unfolding text_eq
text_eq_iff [] [] = ground arith
text_eq_iff (a ∷ s) (b ∷ t) = ground (arith, text_eq_iff s t)
text_eq_iff [] (b ∷ t) = ground arith
text_eq_iff (a ∷ s) [] = ground arith

pub text_eq_refl : (s : List ℕ) → text_eq s s ≡ true
text_eq_refl s = (text_eq_iff s s).1 refl

-- `char::is_control`: the general category Cc
abbrev pub is_control : ℕ → Bool
is_control c = leb c 0x1F || in_range 0x7F 0x9F c

-- `u8::is_ascii_graphic`, and the range `b'!'..=b'~'`
abbrev pub is_ascii_graphic : ℕ → Bool
is_ascii_graphic = in_range 0x21 0x7E

-- `char::is_whitespace`: the property White_Space
abbrev pub is_whitespace : ℕ → Bool
is_whitespace c =
    in_range 0x09 0x0D c
    || c == 0x20
    || c == 0x85
    || c == 0xA0
    || c == 0x1680
    || in_range 0x2000 0x200A c
    || c == 0x2028
    || c == 0x2029
    || c == 0x202F
    || c == 0x205F
    || c == 0x3000

unfoldable pub trim_start : Text → Text
trim_start [] = []
trim_start (c ∷ s) = if is_whitespace c then trim_start s else c ∷ s

-- `trim()`
unfoldable pub trim : Text → Text
unfolding trim_start
trim s = reverse (trim_start (reverse (trim_start s)))

all-graphic-encode : (c : ℕ) → all is_ascii_graphic (encode c) ≡ is_ascii_graphic c
unfolding encode
all-graphic-encode c = ground arith

all-append : (p : ℕ → Bool) (xs ys : List ℕ) → all p (xs ++ ys) ≡ (all p xs && all p ys)
all-append p [] ys = refl
all-append p (x ∷ xs) ys = ground (arith, all-append p xs ys)

-- A test of every byte for the graphic range is one of every character.
pub all-graphic-bytes : (s : Text) → all is_ascii_graphic (bytes s) ≡ all is_ascii_graphic s
unfolding bytes
all-graphic-bytes [] = refl
all-graphic-bytes (c ∷ s) = ground (
  arith,
  all-append is_ascii_graphic (encode c) (bytes s),
  all-graphic-encode c,
  all-graphic-bytes s,
)

length-encode : (c : ℕ) → is_ascii_graphic c ≡ true → length (encode c) ≡ 1
unfolding encode
length-encode c h = ground arith

-- Such a text has one byte for each character.
pub len-graphic : (s : Text) → all is_ascii_graphic s ≡ true → len s ≡ length s
unfolding bytes
len-graphic [] h = refl
len-graphic (c ∷ s) h =
    ground (arith, length-append (encode c) (bytes s), length-encode c, len-graphic s)
