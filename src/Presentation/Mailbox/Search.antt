-- ===== src/Presentation/Mailbox/Search.antt =====
-- Searching and slicing of texts: `find`, `to_ascii_lowercase`, `replace` and slices by an index.
use tersa_app.Prelude.{
  ℕ, zero, suc, ◌+◌, Bool, true, false, ◌&&◌, Option, none, some, [], ◌∷◌, map, in_range,
  if◌then◌else◌,
}
use tersa_app.Prelude.Tests.{◌==◌}
use tersa_app.Prelude.Text.{Text}

-- `u8::to_ascii_lowercase`, on each character
abbrev pub lower : ℕ → ℕ
lower c = if in_range b'A' b'Z' c then c + 32 else c

abbrev pub to_ascii_lowercase : Text → Text
to_ascii_lowercase = map lower

abbrev pub drop : ℕ → Text → Text
drop zero s = s
drop (suc n) [] = []
drop (suc n) (c ∷ s) = drop n s

-- whether the text starts with the needle
unfoldable pub is_prefix : Text → Text → Bool
is_prefix [] s = true
is_prefix (c ∷ needle) [] = false
is_prefix (c ∷ needle) (d ∷ s) = c == d && is_prefix needle s

abbrev pub one_later : Option ℕ → Option ℕ
one_later none = none
one_later (some i) = some (suc i)

-- `s.find(needle)`
unfoldable pub find : Text → Text → Option ℕ
unfolding is_prefix
find needle [] = if is_prefix needle [] then some 0 else none
find needle (c ∷ s) =
    let later = one_later (find needle s) in if is_prefix needle (c ∷ s) then some 0 else later

abbrev pub is_found : Option ℕ → Bool
is_found none = false
is_found (some i) = true

-- `s.contains(needle)`
abbrev pub contains : Text → Text → Bool
contains needle s = is_found (find needle s)

-- `s.find(|c| …)`, up to there
unfoldable pub take_until : (ℕ → Bool) → Text → Text
take_until p [] = []
take_until p (c ∷ s) = if p c then [] else c ∷ take_until p s

-- `replace("\r\n", "\n")`
unfoldable pub replace_crlf : Text → Text
replace_crlf [] = []
replace_crlf (c ∷ []) = c ∷ []
replace_crlf (c ∷ d ∷ s) =
    let one = replace_crlf (d ∷ s) in
    let two = replace_crlf s in if c == b'\r' && d == b'\n' then b'\n' ∷ two else c ∷ one

-- `replace('\r', "\n")`
abbrev pub replace_cr : Text → Text
replace_cr = map (λ c. if c == b'\r' then b'\n' else c)
