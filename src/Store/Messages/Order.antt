-- ===== src/Store/Messages/Order.antt =====
-- The order of the listing: newest first, and by identifier among equal times. What `prune` drops
-- is no newer than what it keeps.
use tersa_app.Prelude.{
  ℕ, zero, suc, ◌≡◌, refl, Bool, true, ◌&&◌, ◌||◌, Option, none, some, List, [], ◌∷◌, all, take,
  arith, ◌⊎◌, inl, inr,
}
use tersa_app.Prelude.Int.{eq_ℤ_iff, leb_ℤ_total, leb_ℤ_trans, leb_ℤ_antisymm}
use tersa_app.Prelude.Text.{Text, bytes}
use tersa_app.Store.Schema.{Row}
use tersa_app.Store.Sql.{bytes_leb, id_leb, newest_first, insert_row, order_by}

bytes_leb_total : (s t : List ℕ) → (bytes_leb s t || bytes_leb t s) ≡ true
unfolding bytes_leb
bytes_leb_total [] t = refl
bytes_leb_total (x ∷ s) [] = refl
bytes_leb_total (x ∷ s) (y ∷ t) = ground (arith, bytes_leb_total s t)

bytes_leb_trans :
    (s t u : List ℕ) → bytes_leb s t ≡ true → bytes_leb t u ≡ true → bytes_leb s u ≡ true
unfolding bytes_leb
bytes_leb_trans [] t u p q = refl
bytes_leb_trans (x ∷ s) [] u p q = cc
bytes_leb_trans (x ∷ s) (y ∷ t) [] p q = cc
bytes_leb_trans (x ∷ s) (y ∷ t) (z ∷ u) p q = ground (arith, bytes_leb_trans s t u)

id_leb_total : (s t : Option Text) → (id_leb s t || id_leb t s) ≡ true
unfolding id_leb
id_leb_total none t = refl
id_leb_total (some s) none = refl
id_leb_total (some s) (some t) = bytes_leb_total (bytes s) (bytes t)

id_leb_trans : (s t u : Option Text) → id_leb s t ≡ true → id_leb t u ≡ true → id_leb s u ≡ true
unfolding id_leb
id_leb_trans none t u p q = refl
id_leb_trans (some s) none u p q = cc
id_leb_trans (some s) (some t) none p q = cc
id_leb_trans (some s) (some t) (some u) p q = bytes_leb_trans (bytes s) (bytes t) (bytes u) p q

newest_first_total : (r s : Row) → (newest_first r s || newest_first s r) ≡ true
unfolding newest_first
newest_first_total r s = ground (
  arith,
  id_leb_total r.message_id s.message_id,
  eq_ℤ_iff r.received_at s.received_at,
  eq_ℤ_iff s.received_at r.received_at,
  leb_ℤ_total r.received_at s.received_at,
)

newest_first_trans :
    (r s t : Row) → newest_first r s ≡ true → newest_first s t ≡ true → newest_first r t ≡ true
unfolding newest_first
newest_first_trans r s t p q = ground (
  arith,
  id_leb_trans r.message_id s.message_id t.message_id,
  eq_ℤ_iff r.received_at s.received_at,
  eq_ℤ_iff s.received_at t.received_at,
  eq_ℤ_iff r.received_at t.received_at,
  leb_ℤ_trans t.received_at s.received_at r.received_at,
  leb_ℤ_antisymm r.received_at s.received_at,
)

-- every row stands before the rows that follow it
pub ordered : List Row → Bool
ordered [] = true
ordered (r ∷ rs) = all (newest_first r) rs && ordered rs

all_trans :
    (r s : Row) (rows : List Row)
    → newest_first r s ≡ true
    → all (newest_first s) rows ≡ true
    → all (newest_first r) rows ≡ true
all_trans r s [] p h = refl
all_trans r s (t ∷ rs) p h = ground (arith, newest_first_trans r s t p, all_trans r s rs p)

all-insert :
    (s r : Row) (rows : List Row)
    → newest_first s r ≡ true
    → all (newest_first s) rows ≡ true
    → all (newest_first s) (insert_row newest_first r rows) ≡ true
unfolding insert_row
all-insert s r [] p h = ground arith
all-insert s r (t ∷ rs) p h = ground (arith, all-insert s r rs p)

insert-ordered :
    (r : Row) (rows : List Row)
    → ordered rows ≡ true
    → ordered (insert_row newest_first r rows) ≡ true
unfolding insert_row ordered
insert-ordered r [] h = refl
insert-ordered r (s ∷ rs) h =
    ground (arith, insert-ordered r rs, all_trans r s rs, all-insert s r rs, newest_first_total r s)

-- What `ORDER BY received_at DESC, message_id ASC` yields is in that order.
pub order_by-ordered : (rows : List Row) → ordered (order_by newest_first rows) ≡ true
unfolding order_by ordered
order_by-ordered [] = refl
order_by-ordered (r ∷ rs) = insert-ordered r (order_by newest_first rs) (order_by-ordered rs)

-- a row of a table
abbrev pub In : Row → List Row → Type 0
In r [] = ⊥
In r (s ∷ rs) = (r ≡ s) ⊎ In r rs

In-insert : (x r : Row) (rows : List Row) → In x (r ∷ rows) → In x (insert_row newest_first r rows)
unfolding insert_row
In-insert x r [] h = h
In-insert x r (s ∷ rs) h = ground (arith, In-insert x r rs)

insert-In : (x r : Row) (rows : List Row) → In x (insert_row newest_first r rows) → In x (r ∷ rows)
unfolding insert_row
insert-In x r [] h = h
insert-In x r (s ∷ rs) h = ground (arith, insert-In x r rs)

pub In-order : (x : Row) (rows : List Row) → In x rows → In x (order_by newest_first rows)
unfolding order_by
In-order x [] h = h
In-order x (r ∷ rs) (inl e) = In-insert x r (order_by newest_first rs) (inl e)
In-order x (r ∷ rs) (inr h) = In-insert x r (order_by newest_first rs) (inr (In-order x rs h))

pub order-In : (x : Row) (rows : List Row) → In x (order_by newest_first rows) → In x rows
unfolding order_by
order-In x [] h = h
order-In x (r ∷ rs) h = elim (insert-In x r (order_by newest_first rs) h) [
  | inl e ↦ inl e
  | inr t ↦ inr (order-In x rs t)
]

pub take-In : (n : ℕ) (x : Row) (rows : List Row) → In x (take n rows) → In x rows
take-In zero x rows h = absurd h
take-In (suc n) x [] h = h
take-In (suc n) x (r ∷ rs) (inl e) = inl e
take-In (suc n) x (r ∷ rs) (inr h) = inr (take-In n x rs h)

all-In : (p : Row → Bool) (x : Row) (rows : List Row) → all p rows ≡ true → In x rows → p x ≡ true
all-In p x (r ∷ rs) h (inl e) = ground arith
all-In p x (r ∷ rs) h (inr t) = all-In p x rs (ground arith) t
all-In p x [] h m = absurd m

-- in an ordered list what is taken stands before what is not
pub take-before :
    (n : ℕ) (x y : Row) (rows : List Row)
    → ordered rows ≡ true
    → In x (take n rows)
    → In y rows
    → ¬ In y (take n rows)
    → newest_first x y ≡ true
unfolding ordered
take-before zero x y rows h mx my out = absurd mx
take-before (suc n) x y [] h mx my out = absurd my
take-before (suc n) x y (r ∷ rs) h mx (inl e) out = absurd (out (inl e))
take-before (suc n) x y (r ∷ rs) h (inl e) (inr my) out =
    rw e (all-In (newest_first r) y rs (ground arith) my)
take-before (suc n) x y (r ∷ rs) h (inr mx) (inr my) out =
    take-before n x y rs (ground arith) mx my (λ m. out (inr m))
