-- ===== src/Presentation/Mailbox/Finds.antt =====
-- Where a text is found in another one.
use tersa_app.Prelude.{
  ℕ, suc, ◌+◌, ◌≤◌, ◌<◌, ◌≡◌, sym, take, refl, ap, ◌∙◌, true, false, ◌&&◌, ◌||◌, Option, none, some,
  [], ◌∷◌, ◌++◌, length, length-append, subst, arith, Bool-cases, Option-cases, inl, inr,
}
use mathlib.Core.List.{append_assoc}
use tersa_app.Prelude.Tests.{◌==◌}
use tersa_app.Prelude.Text.{Text}
use tersa_app.Presentation.Mailbox.Search.{one_later, is_prefix, find, contains, drop, is_found}

found_later : (o : Option ℕ) → is_found (one_later o) ≡ is_found o
found_later none = refl
found_later (some i) = refl

contains_later :
    (needle : Text) (c : ℕ) (s : Text)
    → contains needle (c ∷ s) ≡ (is_prefix needle (c ∷ s) || contains needle s)
unfolding find
contains_later needle c s = elim (Bool-cases (is_prefix needle (c ∷ s))) [
  | inl here ↦ rw here refl
  | inr there ↦ rw there (found_later (find needle s))
]

-- a find and its prefix
is_prefix-append :
    (needle x y : Text) → length needle ≤ length x → is_prefix needle (x ++ y) ≡ is_prefix needle x
unfolding is_prefix
is_prefix-append [] x y h = refl
is_prefix-append (c ∷ needle) [] y h = absurd (omega (arith, h))
is_prefix-append (c ∷ needle) (d ∷ x) y h =
    ap (λ b. c == d && b) (is_prefix-append needle x y (omega (arith, h)))

is_prefix-itself : (needle y : Text) → is_prefix needle (needle ++ y) ≡ true
unfolding is_prefix
is_prefix-itself [] y = refl
is_prefix-itself (c ∷ needle) y = ground (arith, is_prefix-itself needle y)

find-prefix : (needle s : Text) → is_prefix needle s ≡ true → find needle s ≡ some 0
unfolding find
find-prefix needle [] h = rw h refl
find-prefix needle (c ∷ s) h = rw h refl

-- The first place of a needle is after a text that does not hold it, not even with all of the needle
-- but its last character behind it.
pub find-append :
    (init : Text) (last : ℕ) (head body : Text)
    → contains (init ++ (last ∷ [])) (head ++ init) ≡ false
    → find (init ++ (last ∷ [])) (head ++ (init ++ (last ∷ body))) ≡ some (length head)
unfolding find
find-append init last [] body h = find-prefix (init ++ (last ∷ [])) (init ++ (last ∷ body)) (
    subst (λ s. is_prefix (init ++ (last ∷ [])) s ≡ true) (append_assoc init (last ∷ []) body)
      (is_prefix-itself (init ++ (last ∷ [])) body))
find-append init last (c ∷ head) body h =
    let needle = init ++ (last ∷ []) in
    let unfound : (is_prefix needle (c ∷ (head ++ init)) ≡ false)
        × (contains needle (head ++ init) ≡ false) =
      ground (arith, contains_later needle c (head ++ init)) in
    let here : is_prefix needle (c ∷ (head ++ (init ++ (last ∷ body)))) ≡ false =
      subst (λ s. is_prefix needle (c ∷ s) ≡ false) (append_assoc head init (last ∷ body))
        (is_prefix-append needle (c ∷ (head ++ init)) (last ∷ body)
            (omega (arith, length-append init (last ∷ []), length-append head init))
          ∙ unfound.0) in
    rw here (ap one_later (find-append init last head body unfound.1))

-- what is found is there, and not before
is_prefix-short : (needle s : Text) → length s < length needle → is_prefix needle s ≡ false
unfolding is_prefix
is_prefix-short [] s h = absurd (omega (arith, h))
is_prefix-short (c ∷ needle) [] h = refl
is_prefix-short (c ∷ needle) (d ∷ s) h = ground (arith, is_prefix-short needle s)

contains-short : (needle s : Text) → length s < length needle → contains needle s ≡ false
unfolding find
contains-short needle [] h = rw (is_prefix-short needle [] h) refl
contains-short needle (c ∷ s) h =
    contains_later needle c s
    ∙ ground (arith, is_prefix-short needle (c ∷ s) h, contains-short needle s)

is_prefix-rest :
    (needle s : Text) → is_prefix needle s ≡ true → s ≡ needle ++ drop (length needle) s
unfolding is_prefix
is_prefix-rest [] s h = refl
is_prefix-rest (c ∷ needle) [] h = absurd (ground arith)
is_prefix-rest (c ∷ needle) (d ∷ s) h =
    let (same, there) : (c ≡ d) × (is_prefix needle s ≡ true) = ground arith in
    ap (λ x. x ∷ s) (sym same) ∙ ap (λ t. c ∷ t) (is_prefix-rest needle s there)

-- what `find` promises of a place
pub record IsFirst (init : Text) (last : ℕ) (s : Text) (i : ℕ) : Type 0 where
  pub there : s ≡ take i s ++ (init ++ (last ∷ drop (i + suc (length init)) s))
  pub unfound : contains (init ++ (last ∷ [])) (take i s ++ init) ≡ false

module _ (init : Text) (last : ℕ) where
  here-IsFirst : (s : Text) → is_prefix (init ++ (last ∷ [])) s ≡ true → IsFirst init last s 0
  here-IsFirst s h = record {
    there =
        is_prefix-rest (init ++ (last ∷ [])) s h
        ∙ append_assoc init (last ∷ []) (drop (length (init ++ (last ∷ []))) s)
        ∙ ap (λ n. init ++ (last ∷ drop n s)) (omega (arith, length-append init (last ∷ [])));
    unfound =
        contains-short (init ++ (last ∷ [])) init (omega (arith, length-append init (last ∷ [])));
  }

  later-IsFirst :
      (c : ℕ) (s : Text) (j : ℕ)
      → is_prefix (init ++ (last ∷ [])) (c ∷ s) ≡ false
      → IsFirst init last s j
      → IsFirst init last (c ∷ s) (suc j)
  later-IsFirst c s j h f =
      let one_more : suc (j + suc (length init)) ≡ suc j + suc (length init) = omega arith in
      let behind : Text = drop (j + suc (length init)) s in
      let whole : s ≡ (take j s ++ init) ++ (last ∷ behind) =
        f.there ∙ sym (append_assoc (take j s) init (last ∷ behind)) in
      let elsewhere : is_prefix (init ++ (last ∷ [])) (c ∷ (take j s ++ init)) ≡ false =
        sym (
          is_prefix-append (init ++ (last ∷ [])) (c ∷ (take j s ++ init)) (last ∷ behind)
            (omega (arith, length-append init (last ∷ []), length-append (take j s) init)))
        ∙ ap (λ t. is_prefix (init ++ (last ∷ [])) (c ∷ t)) (sym whole)
        ∙ h in
      record {
        there =
            ap (λ t. c ∷ t) f.there
            ∙ ap (λ n. c ∷ (take j s ++ (init ++ (last ∷ drop n (c ∷ s))))) one_more;
        unfound =
            contains_later (init ++ (last ∷ [])) c (take j s ++ init)
            ∙ rw (elsewhere, f.unfound) refl;
      }

pub find-IsFirst :
    (init : Text) (last : ℕ) (s : Text) (i : ℕ)
    → find (init ++ (last ∷ [])) s ≡ some i
    → IsFirst init last s i
unfolding find
find-IsFirst init last [] i h =
    let nowhere =
      is_prefix-short (init ++ (last ∷ [])) [] (omega (arith, length-append init (last ∷ []))) in
    absurd (ground (arith, nowhere))
find-IsFirst init last (c ∷ s) i h = elim (Bool-cases (is_prefix (init ++ (last ∷ [])) (c ∷ s))) [
  | inl here ↦
      let place : 0 ≡ i = ground arith in
      subst (IsFirst init last (c ∷ s)) place (here-IsFirst init last (c ∷ s) here)
  | inr there ↦ elim (Option-cases (find (init ++ (last ∷ [])) s)) [
    | inl absent ↦ absurd (ground arith)
    | inr (j, found) ↦
        let place : suc j ≡ i = ground arith in
        subst (IsFirst init last (c ∷ s)) place
          (later-IsFirst init last c s j there (find-IsFirst init last s j found))
  ]
]
