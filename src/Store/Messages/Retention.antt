-- ===== src/Store/Messages/Retention.antt =====
-- Which rows `prune` keeps.
use tersa_app.Prelude.{
  ℕ, ◌≡◌, refl, Bool, true, some, List, [], ◌∷◌, keep, take, arith, inl, inr, Option-cases,
  Bool-cases, subst,
}
use tersa_app.Prelude.Text.{Text, text_eq_iff}
use tersa_app.Store.Schema.{Row}
use tersa_app.Store.Sql.{has_id, exists_id, newest_first, order_by, prune}
use tersa_app.Store.Messages.Rows.{keyed, listed, prune-listed}
use tersa_app.Store.Messages.Order.{In, In-order, order-In, take-In, take-before, order_by-ordered}

keep-In :
    (p : Row → Bool) (x : Row) (rows : List Row) → In x (keep p rows) → In x rows × (p x ≡ true)
keep-In p x [] h = absurd h
keep-In p x (r ∷ rs) h = ground (arith, keep-In p x rs)

In-keep : (p : Row → Bool) (x : Row) (rows : List Row) → In x rows → p x ≡ true → In x (keep p rows)
In-keep p x [] h e = h
In-keep p x (r ∷ rs) h e = ground (arith, In-keep p x rs)

pub has_id-eq : (id : Text) (r : Row) → has_id id r ≡ true → r.message_id ≡ some id
unfolding has_id
has_id-eq id r h = elim (Option-cases r.message_id) [
  | inl null ↦ absurd (ground arith)
  | inr (t, named) ↦ ground (arith, text_eq_iff t id)
]

exists-In :
    (id : Text) (rows : List Row)
    → exists_id id rows ≡ true
    → (r : Row) × In r rows × (r.message_id ≡ some id)
unfolding exists_id
exists-In id [] h = cc
exists-In id (r ∷ rs) h = elim (Bool-cases (has_id id r)) [
  | inl hit ↦ (r, inl refl, has_id-eq id r hit)
  | inr miss ↦ let (x, m, e) = exists-In id rs (ground arith) in (x, inr m, e)
]

In-exists :
    (id : Text) (r : Row) (rows : List Row)
    → In r rows
    → r.message_id ≡ some id
    → exists_id id rows ≡ true
unfolding exists_id
In-exists id r [] m e = absurd m
In-exists id r (s ∷ rs) m e = ground (arith, In-exists id r rs, text_eq_iff id id)

-- distinct rows have distinct identifiers
keyed-In :
    (id : Text) (r s : Row) (rows : List Row)
    → keyed rows ≡ true
    → In r rows
    → In s rows
    → r.message_id ≡ some id
    → s.message_id ≡ some id
    → r ≡ s
unfolding keyed
keyed-In id r s [] k mr ms er es = absurd mr
keyed-In id r s (x ∷ xs) k (inl a) (inl b) er es = cc
keyed-In id r s (x ∷ xs) k (inl a) (inr b) er es = absurd (ground (arith, In-exists id s xs b es))
keyed-In id r s (x ∷ xs) k (inr a) (inl b) er es = absurd (ground (arith, In-exists id r xs a er))
keyed-In id r s (x ∷ xs) k (inr a) (inr b) er es =
    keyed-In id r s xs
      (elim (Option-cases x.message_id) [ inl null ↦ ground arith | inr (i, e) ↦ ground arith ]) a b
      er es

keyed-named :
    (r : Row) (rows : List Row)
    → keyed rows ≡ true
    → In r rows
    → (id : Text) × (r.message_id ≡ some id)
unfolding keyed
keyed-named r [] k m = absurd m
keyed-named r (x ∷ xs) k (inl e) = elim (Option-cases x.message_id) [
  | inl null ↦ absurd (ground arith)
  | inr (i, named) ↦ (i, rw e named)
]
keyed-named r (x ∷ xs) k (inr m) =
    keyed-named r xs
      (elim (Option-cases x.message_id) [ inl null ↦ ground arith | inr (i, e) ↦ ground arith ]) m

abbrev newest : ℕ → List Row → List Row
newest n rows = take n (order_by newest_first rows)

-- what `prune` keeps is exactly the rows among the `n` newest
prune-newest :
    (n : ℕ) (r : Row) (rows : List Row)
    → keyed rows ≡ true
    → In r (prune n rows)
    → In r (newest n rows)
prune-newest n r rows k m =
    let m' : In r (keep (listed (newest n rows)) rows) = subst (In r) (prune-listed n rows k) m in
    let (mr, l) = keep-In (listed (newest n rows)) r rows m' in
    let (id, named) = keyed-named r rows k mr in
    let (s, ms, es) = exists-In id (newest n rows) (ground arith) in
    let same : r ≡ s = keyed-In id r s rows k mr (order-In s rows (take-In n s _ ms)) named es in
    rw same ms

newest-prune :
    (n : ℕ) (r : Row) (rows : List Row)
    → keyed rows ≡ true
    → In r rows
    → In r (newest n rows)
    → In r (prune n rows)
newest-prune n r rows k mr m =
    let (id, named) = keyed-named r rows k mr in
    let l : listed (newest n rows) r ≡ true =
      ground (arith, In-exists id r (newest n rows) m named) in
    rw (prune-listed n rows k) (In-keep (listed (newest n rows)) r rows mr l)

-- In a table of distinct identifiers, a row that `prune` keeps stands, newest first and by
-- identifier among equal times, before every row that it drops.
pub prune_keeps_newest :
    (n : ℕ) (x y : Row) (rows : List Row)
    → keyed rows ≡ true
    → In x (prune n rows)
    → In y rows
    → ¬ In y (prune n rows)
    → newest_first x y ≡ true
prune_keeps_newest n x y rows k mx my out =
    take-before n x y (order_by newest_first rows) (order_by-ordered rows)
      (prune-newest n x rows k mx) (In-order y rows my) (λ m. out (newest-prune n y rows k my m))
