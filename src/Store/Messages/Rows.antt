-- ===== src/Store/Messages/Rows.antt =====
-- The primary key of `messages`: distinct identifiers, none of them NULL. Every statement keeps
-- it, and with it the table holds no more rows than `prune` was told to keep.
use tersa_app.Prelude.{
  ℕ, zero, suc, ◌+◌, ◌≤◌, ◌≡◌, refl, Bool, true, false, not, ◌&&◌, ◌||◌, Option, none, some, List,
  [], ◌∷◌, map, keep, take, length, arith, Option-cases, inl, inr, length-take-le, ◌∙◌,
}
use tersa_app.Prelude.Text.{Text, text_eq, text_eq_iff}
use tersa_app.Domain.Mailbox.{MessageEnvelope}
use tersa_app.Store.Schema.{Row}
use tersa_app.Store.Sql.{
  upsert_row, order_by, insert_row, newest_first, exists_id, has_null_id, not_in, prune, update_row,
}

-- Every identifier is there, and no later row has it again.
unfoldable pub keyed : List Row → Bool
keyed [] = true
keyed (r ∷ rs) = elim r.message_id [ none ↦ false | some id ↦ not (exists_id id rs) && keyed rs ]

exists-upsert :
    (id : Text) (e : MessageEnvelope) (c : Option (List ℕ)) (rows : List Row)
    → exists_id id (upsert_row e c rows) ≡ (exists_id id rows || text_eq e.message_id id)
unfolding exists_id upsert_row
exists-upsert id e c [] = ground arith
exists-upsert id e c (r ∷ rs) = ground (arith, exists-upsert id e c rs, text_eq_iff e.message_id id)

pub keyed-upsert :
    (e : MessageEnvelope) (c : Option (List ℕ)) (rows : List Row)
    → keyed rows ≡ true
    → keyed (upsert_row e c rows) ≡ true
unfolding keyed upsert_row
keyed-upsert e c [] h = unfold exists_id in ground arith
keyed-upsert e c (r ∷ rs) h = elim (Option-cases r.message_id) [
  | inl null ↦ absurd (ground arith)
  | inr (id, named) ↦ ground (
    arith,
    exists-upsert id e c rs,
    keyed-upsert e c rs,
    text_eq_iff id e.message_id,
    text_eq_iff e.message_id id,
  )
]

exists-keep :
    (id : Text) (p : Row → Bool) (rows : List Row)
    → exists_id id rows ≡ false
    → exists_id id (keep p rows) ≡ false
unfolding exists_id
exists-keep id p [] h = refl
exists-keep id p (r ∷ rs) h = ground (arith, exists-keep id p rs)

pub keyed-keep : (p : Row → Bool) (rows : List Row) → keyed rows ≡ true → keyed (keep p rows) ≡ true
unfolding keyed
keyed-keep p [] h = refl
keyed-keep p (r ∷ rs) h = elim (Option-cases r.message_id) [
  | inl null ↦ absurd (ground arith)
  | inr (id, named) ↦ ground (arith, exists-keep id p rs, keyed-keep p rs)
]

-- a change that leaves the identifiers alone
module _ (f : Row → Row) (same : (r : Row) → (f r).message_id ≡ r.message_id) where
  exists-map : (id : Text) (rows : List Row) → exists_id id (map f rows) ≡ exists_id id rows
  unfolding exists_id
  exists-map id [] = refl
  exists-map id (r ∷ rs) = ground (arith, same r, exists-map id rs)

  pub keyed-map : (rows : List Row) → keyed (map f rows) ≡ keyed rows
  unfolding keyed
  keyed-map [] = refl
  keyed-map (r ∷ rs) = elim (Option-cases r.message_id) [
    | inl null ↦ ground (arith, same r)
    | inr (id, named) ↦ ground (arith, same r, exists-map id rs, keyed-map rs)
  ]

exists-update :
    (id : Text) (e : MessageEnvelope) (c : List ℕ) (rows : List Row)
    → exists_id id (update_row e c rows).1 ≡ exists_id id rows
unfolding exists_id update_row
exists-update id e c [] = refl
exists-update id e c (r ∷ rs) = ground (arith, exists-update id e c rs)

pub keyed-update :
    (e : MessageEnvelope) (c : List ℕ) (rows : List Row)
    → keyed rows ≡ true
    → keyed (update_row e c rows).1 ≡ true
unfolding keyed update_row
keyed-update e c [] h = refl
keyed-update e c (r ∷ rs) h = elim (Option-cases r.message_id) [
  | inl null ↦ absurd (ground arith)
  | inr (id, named) ↦ ground (arith, exists-update id e c rs, keyed-update e c rs)
]

-- rows without a NULL identifier, in any order
has_null-keyed : (rows : List Row) → keyed rows ≡ true → has_null_id rows ≡ false
unfolding keyed has_null_id
has_null-keyed [] h = refl
has_null-keyed (r ∷ rs) h = elim (Option-cases r.message_id) [
  | inl null ↦ absurd (ground arith)
  | inr (id, named) ↦ ground (arith, has_null-keyed rs)
]

has_null-insert :
    (r : Row) (rows : List Row)
    → has_null_id (insert_row newest_first r rows) ≡ has_null_id (r ∷ rows)
unfolding insert_row has_null_id
has_null-insert r [] = refl
has_null-insert r (s ∷ rs) = ground (arith, has_null-insert r rs)

has_null-order : (rows : List Row) → has_null_id (order_by newest_first rows) ≡ has_null_id rows
unfolding order_by has_null_id
has_null-order [] = refl
has_null-order (r ∷ rs) =
    ground (arith, has_null-insert r (order_by newest_first rs), has_null-order rs)

has_null-take :
    (n : ℕ) (rows : List Row) → has_null_id rows ≡ false → has_null_id (take n rows) ≡ false
unfolding has_null_id
has_null-take zero rows h = refl
has_null-take (suc n) [] h = refl
has_null-take (suc n) (r ∷ rs) h = ground (arith, has_null-take n rs)

-- the rows that `prune` keeps, once no NULL is involved
abbrev pub listed : List Row → Row → Bool
listed kept r = elim r.message_id [ none ↦ true | some id ↦ exists_id id kept ]

abbrev same_id : Option Text → Text → Bool
same_id none id = false
same_id (some t) id = text_eq t id

-- the rows with a given identifier
abbrev shares : Option Text → Row → Bool
shares o r = elim r.message_id [ none ↦ true | some id ↦ same_id o id ]

keep-shares_absent :
    (t : Text) (rows : List Row)
    → keyed rows ≡ true
    → exists_id t rows ≡ false
    → keep (shares (some t)) rows ≡ []
unfolding keyed exists_id
keep-shares_absent t [] h a = refl
keep-shares_absent t (r ∷ rs) h a = elim (Option-cases r.message_id) [
  | inl null ↦ absurd (ground arith)
  | inr (id, named) ↦ ground (arith, keep-shares_absent t rs, text_eq_iff id t, text_eq_iff t id)
]

-- at most one row has a given identifier
length-shares :
    (o : Option Text) (rows : List Row) → keyed rows ≡ true → length (keep (shares o) rows) ≤ 1
unfolding keyed
length-shares o [] h = omega arith
length-shares none (r ∷ rs) h = elim (Option-cases r.message_id) [
  | inl null ↦ absurd (ground arith)
  | inr (id, named) ↦ ground (arith, length-shares none rs)
]
length-shares (some t) (r ∷ rs) h = elim (Option-cases r.message_id) [
  | inl null ↦ absurd (ground arith)
  | inr (id, named) ↦
      ground (arith, length-shares (some t) rs, keep-shares_absent id rs, text_eq_iff t id)
]

length-keep_or :
    (p q w : Row → Bool)
    → ((r : Row) → p r ≡ (q r || w r))
    → (rows : List Row) → length (keep p rows) ≤ length (keep q rows) + length (keep w rows)
length-keep_or p q w h [] = omega arith
length-keep_or p q w h (r ∷ rs) = ground (arith, h r, length-keep_or p q w h rs)

-- Distinct rows that share their identifiers with `kept` are no more than `kept` has.
length-listed :
    (kept rows : List Row) → keyed rows ≡ true → length (keep (listed kept) rows) ≤ length kept
unfolding exists_id keyed
length-listed [] [] h = omega arith
length-listed [] (r ∷ rs) h = elim (Option-cases r.message_id) [
  | inl null ↦ absurd (ground arith)
  | inr (id, named) ↦ ground (arith, length-listed [] rs)
]
length-listed (k ∷ ks) rows h = omega (
  arith,
  length-keep_or (listed (k ∷ ks)) (shares k.message_id) (listed ks) (λ r. ground arith) rows,
  length-shares k.message_id rows h,
  length-listed ks rows h,
)

keep-eq :
    (p q : Row → Bool) → ((r : Row) → p r ≡ q r) → (rows : List Row) → keep p rows ≡ keep q rows
keep-eq p q h [] = refl
keep-eq p q h (r ∷ rs) = ground (arith, h r, keep-eq p q h rs)

not_in-listed :
    (kept : List Row) → has_null_id kept ≡ false → (r : Row) → not (not_in kept r) ≡ listed kept r
unfolding not_in
not_in-listed kept h r = ground arith

-- Without NULL identifiers `prune` keeps the rows whose identifiers are among the `n` newest.
pub prune-listed :
    (n : ℕ) (rows : List Row)
    → keyed rows ≡ true
    → prune n rows ≡ keep (listed (take n (order_by newest_first rows))) rows
unfolding prune
prune-listed n rows h =
    keep-eq _ _
      (not_in-listed (take n (order_by newest_first rows)) (
        has_null-take n (order_by newest_first rows) (has_null-order rows ∙ has_null-keyed rows h)))
      rows

pub keyed-prune : (n : ℕ) (rows : List Row) → keyed rows ≡ true → keyed (prune n rows) ≡ true
unfolding prune
keyed-prune n rows h = keyed-keep _ rows h

-- A table that held distinct identifiers holds at most `n` rows after `prune n`.
pub length-prune : (n : ℕ) (rows : List Row) → keyed rows ≡ true → length (prune n rows) ≤ n
length-prune n rows h = rw (prune-listed n rows h) (
    omega (
      arith,
      length-listed (take n (order_by newest_first rows)) rows h,
      length-take-le n (order_by newest_first rows),
    ))
