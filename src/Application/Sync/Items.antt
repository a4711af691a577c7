-- ===== src/Application/Sync/Items.antt =====
-- The items of one page: the envelopes stay distinct and are counted up to the capacity.
use Prim.Native.Nat.{min}
use tersa_app.Prelude.{
  ℕ, zero, suc, ◌≤◌, ◌≡◌, refl, Bool, true, false, none, some, List, [], ◌∷◌, ◌++◌, length,
  length-append, take, arith, inl, inr, Bool-cases, Option-cases, ◌∙◌,
}
use tersa_app.Prelude.Result.{Result, ok, err}
use tersa_app.Prelude.Text.{text_eq, text_eq_iff}
use tersa_app.Domain.Mailbox.{MessageId, MessageEnvelope}
use tersa_app.Application.SyncPolicy.{SyncFailure}
use tersa_app.Application.Sync.{Snapshot, envelope_eq, find_envelope, push_envelope, accept_items}

-- no two envelopes have one identifier
unfoldable pub distinct_ids : List MessageEnvelope → Bool
distinct_ids [] = true
distinct_ids (e ∷ es) = elim (find_envelope e.message_id es) [
  | none ↦ distinct_ids es
  | some _ ↦ false
]

pub length-take-min : (n : ℕ) (es : List MessageEnvelope) → length (take n es) ≡ min (length es) n
length-take-min zero es = omega arith
length-take-min (suc n) [] = omega arith
length-take-min (suc n) (x ∷ es) = omega (arith, length-take-min n es)

pub find-append :
    (id : MessageId) (es : List MessageEnvelope) (e : MessageEnvelope)
    → find_envelope id es ≡ none
    → text_eq e.message_id id ≡ false
    → find_envelope id (es ++ (e ∷ [])) ≡ none
unfolding find_envelope
find-append id [] e h n = ground arith
find-append id (x ∷ es) e h n = ground (arith, find-append id es e)

pub distinct-append :
    (es : List MessageEnvelope) (e : MessageEnvelope)
    → distinct_ids es ≡ true
    → find_envelope e.message_id es ≡ none
    → distinct_ids (es ++ (e ∷ [])) ≡ true
unfolding distinct_ids find_envelope
distinct-append [] e h n = refl
distinct-append (x ∷ es) e h n = ground (
  arith,
  distinct-append es e,
  find-append x.message_id es e,
  text_eq_iff x.message_id e.message_id,
  text_eq_iff e.message_id x.message_id,
)

pub find-take :
    (n : ℕ) (id : MessageId) (es : List MessageEnvelope)
    → find_envelope id es ≡ none
    → find_envelope id (take n es) ≡ none
unfolding find_envelope
find-take zero id es h = refl
find-take (suc n) id [] h = refl
find-take (suc n) id (x ∷ es) h = ground (arith, find-take n id es)

pub distinct-take :
    (n : ℕ) (es : List MessageEnvelope) → distinct_ids es ≡ true → distinct_ids (take n es) ≡ true
unfolding distinct_ids
distinct-take zero es h = refl
distinct-take (suc n) [] h = refl
distinct-take (suc n) (x ∷ es) h = ground (arith, distinct-take n es, find-take n x.message_id es)

-- What the page loop maintains: the counter of the envelopes is their number, up to the capacity.
pub record IsCounted (capacity : ℕ) (s : Snapshot) : Type 0 where
  pub counted : s.progress.envelopes ≡ min (length s.envelopes) capacity
  pub distinct : distinct_ids s.envelopes ≡ true
  pub no_requests : s.progress.body_requests ≡ 0
  pub none_cached : s.progress.bodies_cached ≡ 0
  pub none_skipped : s.progress.bodies_skipped ≡ 0

pub push-IsCounted :
    (capacity : ℕ) (e : MessageEnvelope) (s : Snapshot)
    → capacity ≤ 10000
    → find_envelope e.message_id s.envelopes ≡ none
    → IsCounted capacity s
    → IsCounted capacity (push_envelope capacity e s)
unfolding push_envelope
push-IsCounted capacity e s c n i = record {
  counted = ground (arith, length-append s.envelopes (e ∷ []));
  distinct = distinct-append s.envelopes e i.distinct n;
  no_requests = i.no_requests;
  none_cached = i.none_cached;
  none_skipped = i.none_skipped;
}

-- the outcome of the item loop: a snapshot, or the progress of a failure
abbrev pub Accepted : ℕ → Snapshot → Result SyncFailure Snapshot → Type 0
Accepted capacity s (ok t) =
    IsCounted capacity t × (t.progress.pages ≡ s.progress.pages) × (t.tokens ≡ s.tokens)
Accepted capacity s (err f) =
    (f.progress.pages ≡ s.progress.pages)
    × (f.progress.envelopes ≤ capacity)
    × (f.progress.body_requests ≡ 0)
    × (f.progress.bodies_cached ≡ 0)
    × (f.progress.bodies_skipped ≡ 0)

pub push_pages :
    (capacity : ℕ) (e : MessageEnvelope) (s : Snapshot)
    → ((push_envelope capacity e s).progress.pages ≡ s.progress.pages)
      × ((push_envelope capacity e s).tokens ≡ s.tokens)
unfolding push_envelope
push_pages capacity e s = (refl, refl)

pub Accepted-trans :
    (capacity : ℕ) (s t : Snapshot) (r : Result SyncFailure Snapshot)
    → t.progress.pages ≡ s.progress.pages
    → t.tokens ≡ s.tokens
    → Accepted capacity t r
    → Accepted capacity s r
Accepted-trans capacity s t (ok u) p q a = (a.0, a.1 ∙ p, a.2 ∙ q)
Accepted-trans capacity s t (err f) p q a = (a.0 ∙ p, a.1, a.2, a.3, a.4)

pub accept_items-Accepted :
    (capacity : ℕ) (items : List MessageEnvelope) (s : Snapshot)
    → capacity ≤ 10000
    → IsCounted capacity s
    → Accepted capacity s (accept_items capacity items s)
unfolding accept_items
accept_items-Accepted capacity [] s c i = (i, refl, refl)
accept_items-Accepted capacity (e ∷ es) s c i =
    elim (Option-cases (find_envelope e.message_id s.envelopes)) [
      | inl new ↦ rw new (
          Accepted-trans capacity s (push_envelope capacity e s) _ (push_pages capacity e s).0
            (push_pages capacity e s).1
            (accept_items-Accepted capacity es (push_envelope capacity e s) c
              (push-IsCounted capacity e s c new i)))
      | inr (known, old) ↦ rw old (elim (Bool-cases (envelope_eq known e)) [
        | inl same ↦ rw same (accept_items-Accepted capacity es s c i)
        | inr other ↦ rw other (refl, ground arith, i.no_requests, i.none_cached, i.none_skipped)
      ])
    ]
