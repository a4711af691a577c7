-- ===== src/Presentation/Terminal.antt =====
-- crates/presentation/src/terminal.rs: text that is safe to write to a terminal.
use tersa_app.Prelude.{
  ℕ, ◌≡◌, refl, ap, Bool, true, false, not, ◌&&◌, ◌||◌, [], ◌∷◌, all, any, keep, in_range,
  if◌then◌else◌, arith, Bool-cases, inl, inr,
}
use tersa_app.Prelude.Tests.{◌==◌}
use tersa_app.Prelude.Text.{Text, is_control}

unfoldable pub is_allowed : ℕ → Bool
is_allowed c = not (
    in_range 0x0 0x1F c
    || in_range 0x7F 0x9F c
    || c == 0x61C
    || in_range 0x200B 0x200F c
    || in_range 0x202A 0x202E c
    || c == 0x2060
    || in_range 0x2066 0x2069 c
    || c == 0xFEFF
    || in_range 0xE0000 0xE007F c)

abbrev pub is_line_character : ℕ → Bool
is_line_character c = c == b'\n' || c == b'\t'

-- `SafeText::multi_line`
unfoldable pub multi_line : Text → Text
unfolding is_allowed
multi_line input = keep (λ c. is_line_character c || is_allowed c) input

-- `SafeText::single_line`
unfoldable pub single_line : Text → Text
unfolding is_allowed
single_line [] = []
single_line (c ∷ input) =
    let rest = single_line input in
    if c == b'\n' || c == b'\r' || c == b'\t'
    then b' ' ∷ rest
    else if is_allowed c
    then c ∷ rest
    else rest

allowed-visible : (c : ℕ) → is_allowed c ≡ true → is_control c ≡ false
unfolding is_allowed
allowed-visible c h = ground arith

-- A single line holds only allowed characters, so no control character and no escape, and the
-- sanitizer leaves it as it is.
pub single_line_lem :
    (input : Text)
    → (all is_allowed (single_line input) ≡ true)
      × (any is_control (single_line input) ≡ false)
      × (single_line (single_line input) ≡ single_line input)
unfolding single_line is_allowed
single_line_lem [] = (refl, refl, refl)
single_line_lem (c ∷ input) =
    let (allowed, visible, stable) = single_line_lem input in
    elim (Bool-cases (c == b'\n' || c == b'\r' || c == b'\t')) [
      | inl line ↦ rw line (allowed, visible, ap (◌∷◌ b' ') stable)
      | inr other ↦ rw other (elim (Bool-cases (is_allowed c)) [
        | inl good ↦
            rw good (rw (good, other, allowed-visible c good) (allowed, visible, ap (◌∷◌ c) stable))
        | inr bad ↦ rw bad (allowed, visible, stable)
      ])
    ]

-- printable ASCII, and the two line characters
abbrev pub is_plain : ℕ → Bool
is_plain c = in_range 0x20 0x7E c || c == 10 || c == 9

-- an escape, a backspace or another control character, a directional embedding, override or isolate,
-- or a zero-width character
abbrev pub is_unsafe : ℕ → Bool
is_unsafe c =
    (is_control c && not (c == 10 || c == 9))
    || in_range 0x202A 0x202E c
    || in_range 0x2066 0x2069 c
    || in_range 0x200B 0x200F c
    || c == 0xFEFF

kept-harmless : (c : ℕ) → is_line_character c || is_allowed c ≡ true → is_unsafe c ≡ false
unfolding is_allowed
kept-harmless c h = ground arith

plain-kept : (c : ℕ) → is_line_character c || is_allowed c ≡ false → is_plain c ≡ false
unfolding is_allowed
plain-kept c h = ground arith

-- A text of several lines holds no control character but newlines and tabs, no directional embedding,
-- override or isolate (U+202A to U+202E, U+2066 to U+2069), and no zero-width character of U+200B to
-- U+200F and U+FEFF; the printable ASCII characters, the newlines and the tabs of the
-- input are all in it, in their order; and the sanitizer leaves it as it is.
pub multi_line_lem :
    (input : Text)
    → (any is_unsafe (multi_line input) ≡ false)
      × (keep is_plain (multi_line input) ≡ keep is_plain input)
      × (multi_line (multi_line input) ≡ multi_line input)
unfolding multi_line
multi_line_lem [] = (refl, refl, refl)
multi_line_lem (c ∷ input) =
    let (harmless, plain, stable) = multi_line_lem input in
    elim (Bool-cases (is_line_character c || is_allowed c)) [
      | inl kept ↦
          rw (kept, kept, kept-harmless c kept)
            (harmless, ap (λ t. if is_plain c then c ∷ t else t) plain, ap (◌∷◌ c) stable)
      | inr dropped ↦ rw (dropped, plain-kept c dropped) (harmless, plain, stable)
    ]
