-- ===== src/Application/OAuth/Urls.antt =====
-- crates/application/src/oauth.rs: what it reads of a URL, and of the texts in one.
use tersa_app.Prelude.{
  ℕ, Bool, true, false, ◌||◌, Option, none, some, List, [], ◌∷◌, ◌++◌, any, if◌then◌else◌,
}
use tersa_app.Prelude.Tests.{◌==◌}
use tersa_app.Prelude.Text.{Text, text_eq}

-- the accessors of `url::Url` that are used
pub record Url : Type 0 where
  pub as_str : Text
  pub scheme : Text
  pub host_str : Option Text
  pub port : Option ℕ
  pub path : Text
  pub username : Text
  pub password : Option Text
  pub query : Option Text
  pub fragment : Option Text
  pub query_pairs : List (Text × Text)

abbrev pub is_given : Option Text → Bool
is_given none = false
is_given (some _) = true

-- `split_once('?')`, and the part before it or the whole
unfoldable pub before_query : Text → Text
before_query [] = []
before_query (c ∷ s) = if c == b'?' then [] else c ∷ before_query s

-- `parameters.get(name)`
unfoldable pub lookup : Text → List (Text × Text) → Option Text
lookup name [] = none
lookup name ((key, value) ∷ pairs) = if text_eq key name then some value else lookup name pairs

-- whether `parameters.insert(name, …)` replaces a value
unfoldable pub has_key : Text → List (Text × Text) → Bool
has_key name pairs = any (λ p. text_eq p.0 name) pairs

-- `u8::is_ascii_whitespace`
abbrev pub is_ascii_whitespace : ℕ → Bool
is_ascii_whitespace c = c == 0x20 || c == 0x09 || c == 0x0A || c == 0x0C || c == 0x0D

abbrev flush : Text → List Text → List Text
flush [] rest = rest
flush (c ∷ s) rest = (c ∷ s) ∷ rest

unfoldable words_from : Text → Text → List Text
words_from current [] = flush current []
words_from current (c ∷ s) =
    let ended = words_from [] s in
    let longer = words_from (current ++ (c ∷ [])) s in
    if is_ascii_whitespace c then flush current ended else longer

-- `split_ascii_whitespace()`
unfoldable pub words : Text → List Text
unfolding words_from
words s = words_from [] s
