-- ===== src/Prelude/Utf8.antt =====
-- `String::from_utf8_lossy`: well-formed UTF-8 is decoded, and each maximal prefix of an ill-formed
-- sequence becomes one replacement character.
use tersa_app.Prelude.Tests.{ltb, ◌==◌, in_range, if◌then◌else◌, Bool-cases}
use tersa_app.Prelude.Lists.{all}
use tersa_app.Prelude.Text.{Text, encode, bytes}
use Prim.Native.Nat.{ℕ, ◌+◌, ◌-◌, ◌*◌, ◌/◌, ◌%◌, ◌<◌, ◌≤◌}
use mathlib.Core.Path.{◌≡◌, refl, ap, ◌∙◌}
use mathlib.Core.Logic.{◌≢◌, inl, inr}
use mathlib.Core.Bool.{Bool, true, ◌||◌}
use mathlib.Core.List.{List, [], ◌∷◌, ◌++◌}
use native.Mathlib.Omega.{arith}

abbrev pub replacement : ℕ
replacement = 0xFFFD

-- between characters, or inside one: the bytes that are missing, the value of those read, and the
-- range of the next one
pub data Progress : Type 0 where
  idle : Progress
  inside : ℕ → ℕ → ℕ → ℕ → Progress

-- the first byte of a character
unfoldable pub begin : ℕ → Text × Progress
begin b =
    if ltb b 0x80
    then (b ∷ [], idle)
    else if in_range 0xC2 0xDF b
    then ([], inside 1 (b - 0xC0) 0x80 0xBF)
    else if b == 0xE0
    then ([], inside 2 0 0xA0 0xBF)
    else if b == 0xED
    then ([], inside 2 13 0x80 0x9F)
    else if in_range 0xE1 0xEF b
    then ([], inside 2 (b - 0xE0) 0x80 0xBF)
    else if b == 0xF0
    then ([], inside 3 0 0x90 0xBF)
    else if in_range 0xF1 0xF3 b
    then ([], inside 3 (b - 0xF0) 0x80 0xBF)
    else if b == 0xF4
    then ([], inside 3 4 0x80 0x8F)
    else (replacement ∷ [], idle)

unfoldable pub read : Progress → ℕ → Text × Progress
unfolding begin
read idle b = begin b
read (inside missing value least most) b =
    if in_range least most b
    then (if missing == 1
        then ((value * 64 + (b - 0x80)) ∷ [], idle)
        else ([], inside (missing - 1) (value * 64 + (b - 0x80)) 0x80 0xBF))
    else (replacement ∷ (begin b).0, (begin b).1)

unfoldable pub read_all : Progress → List ℕ → Text
unfolding read
read_all idle [] = []
read_all (inside missing value least most) [] = replacement ∷ []
read_all progress (b ∷ bs) = (read progress b).0 ++ read_all (read progress b).1 bs

unfoldable pub from_utf8_lossy : List ℕ → Text
unfolding read_all
from_utf8_lossy = read_all idle

-- a Unicode scalar value: what a `char` is
abbrev pub is_scalar : ℕ → Bool
is_scalar c = ltb c 0xD800 || in_range 0xE000 0x10FFFF c

begin_one : (c : ℕ) → c < 0x80 → read idle c ≡ (c ∷ [], idle)
unfolding read
begin_one c h = ground arith

begin_two : (q : ℕ) → 2 ≤ q → q < 32 → read idle (0xC0 + q) ≡ ([], inside 1 q 0x80 0xBF)
unfolding read
begin_two q h k = ground arith

begin_three :
    (q : ℕ)
    → q < 16
    → read idle (0xE0 + q)
      ≡ ([], inside 2 q (if q == 0 then 0xA0 else 0x80) (if q == 13 then 0x9F else 0xBF))
unfolding read
begin_three q h = ground arith

begin_four :
    (q : ℕ)
    → q < 5
    → read idle (0xF0 + q)
      ≡ ([], inside 3 q (if q == 0 then 0x90 else 0x80) (if q == 4 then 0x8F else 0xBF))
unfolding read
begin_four q h = ground arith

read_last :
    (value least most r : ℕ)
    → least ≤ 0x80 + r
    → 0x80 + r ≤ most
    → read (inside 1 value least most) (0x80 + r) ≡ ((value * 64 + r) ∷ [], idle)
unfolding read
read_last value least most r h k = ground arith

read_next :
    (missing value least most r : ℕ)
    → least ≤ 0x80 + r
    → 0x80 + r ≤ most
    → missing ≢ 1
    → read (inside missing value least most) (0x80 + r)
      ≡ ([], inside (missing - 1) (value * 64 + r) 0x80 0xBF)
unfolding read
read_next missing value least most r h k n = ground arith

-- one character of a text is read back
read_two :
    (c : ℕ) (bs : List ℕ)
    → 0x80 ≤ c
    → c < 0x800
    → read_all idle ((0xC0 + c / 64) ∷ (0x80 + c % 64) ∷ bs) ≡ c ∷ read_all idle bs
unfolding read_all
read_two c bs h k = rw (begin_two (c / 64) (omega arith) (omega arith)) (
    rw (read_last (c / 64) 0x80 0xBF (c % 64) (omega arith) (omega arith))
      (ap (λ x. x ∷ read_all idle bs) (omega arith)))

read_three :
    (c : ℕ) (bs : List ℕ)
    → 0x800 ≤ c
    → c < 0x10000
    → is_scalar c ≡ true
    → read_all idle ((0xE0 + c / 4096) ∷ (0x80 + c / 64 % 64) ∷ (0x80 + c % 64) ∷ bs)
      ≡ c ∷ read_all idle bs
unfolding read_all
read_three c bs h k valid =
    let q : ℕ = c / 4096 in
    let least : ℕ = if q == 0 then 0xA0 else 0x80 in
    let most : ℕ = if q == 13 then 0x9F else 0xBF in
    rw (begin_three q (omega arith)) (
      rw
        (read_next 2 q least most (c / 64 % 64) (ground arith) (ground arith)
          (λ e. absurd (ground arith)))
        (rw (read_last (q * 64 + c / 64 % 64) 0x80 0xBF (c % 64) (omega arith) (omega arith))
          (ap (λ x. x ∷ read_all idle bs) (omega arith))))

read_four :
    (c : ℕ) (bs : List ℕ)
    → 0x10000 ≤ c
    → is_scalar c ≡ true
    → read_all idle
        ((0xF0 + c / 262144) ∷ (0x80 + c / 4096 % 64) ∷ (0x80 + c / 64 % 64) ∷ (0x80 + c % 64) ∷ bs)
      ≡ c ∷ read_all idle bs
unfolding read_all
read_four c bs h valid =
    let q : ℕ = c / 262144 in
    let least : ℕ = if q == 0 then 0x90 else 0x80 in
    let most : ℕ = if q == 4 then 0x8F else 0xBF in
    let bound : c ≤ 0x10FFFF = ground arith in
    rw (begin_four q (omega arith)) (
      rw
        (read_next 3 q least most (c / 4096 % 64) (ground arith) (ground arith)
          (λ e. absurd (ground arith)))
        (rw
          (read_next 2 (q * 64 + c / 4096 % 64) 0x80 0xBF (c / 64 % 64) (omega arith) (omega arith)
            (λ e. absurd (ground arith)))
          (rw
            (read_last ((q * 64 + c / 4096 % 64) * 64 + c / 64 % 64) 0x80 0xBF (c % 64)
              (omega arith) (omega arith))
            (ap (λ x. x ∷ read_all idle bs) (omega arith)))))

read_one : (c : ℕ) (bs : List ℕ) → c < 0x80 → read_all idle (c ∷ bs) ≡ c ∷ read_all idle bs
unfolding read_all
read_one c bs h = rw (begin_one c h) refl

read_encode :
    (c : ℕ) (bs : List ℕ)
    → is_scalar c ≡ true
    → read_all idle (encode c ++ bs) ≡ c ∷ read_all idle bs
unfolding encode
read_encode c bs valid = elim (Bool-cases (ltb c 0x80)) [
  | inl one ↦ rw one (read_one c bs (ground arith))
  | inr more ↦ elim (Bool-cases (ltb c 0x800)) [
    | inl two ↦ rw more (rw two (read_two c bs (ground arith) (ground arith)))
    | inr many ↦ elim (Bool-cases (ltb c 0x10000)) [
      | inl three ↦
          rw more (rw many (rw three (read_three c bs (ground arith) (ground arith) valid)))
      | inr four ↦ rw more (rw many (rw four (read_four c bs (ground arith) valid)))
    ]
  ]
]

-- Decoding the UTF-8 bytes of a text gives the text back.
pub from_utf8_lossy-bytes : (s : Text) → all is_scalar s ≡ true → from_utf8_lossy (bytes s) ≡ s
unfolding from_utf8_lossy bytes
from_utf8_lossy-bytes [] h = refl
from_utf8_lossy-bytes (c ∷ s) h =
    read_encode c (bytes s) (ground arith)
    ∙ ap (λ t. c ∷ t) (from_utf8_lossy-bytes s (ground arith))
