-- ===== src/Application/Sync/Rounds.antt =====
-- One round of the page loop keeps the counters and the snapshot within the policy, on success and
-- on failure.
use tersa_app.Prelude.{
  ℕ, suc, ◌+◌, ◌≤◌, ◌≡◌, Option, none, some, List, [], ◌∷◌, ◌++◌, length, length-take-le, any, ltb,
  leb, arith, inl, inr, Bool-cases,
}
use tersa_app.Prelude.Tests.{◌==◌}
use tersa_app.Prelude.Result.{Result, ok, err}
use tersa_app.Prelude.Text.{Text, text_eq}
use tersa_app.Domain.Mailbox.{MessageEnvelope}
use tersa_app.Application.Mailbox.{Page}
use tersa_app.Application.SyncPolicy.{SyncPolicy, SyncProgress, SyncFailure, increment, new_policy}
use tersa_app.Application.Sync.{
  Snapshot, truncate, mark_truncated, finish_round, page_round, Round, failed, done, next,
  accepted_round,
}
use tersa_app.Application.Sync.Items.{
  length-take-min, distinct-take, IsCounted, Accepted, accept_items-Accepted,
}

-- what every progress of a sync satisfies
pub record WithinPolicy (policy : SyncPolicy) (p : SyncProgress) : Type 0 where
  pub pages_bounded : p.pages ≤ policy.max_pages
  pub envelopes_bounded : p.envelopes ≤ policy.keep_limit
  pub requests_bounded : p.body_requests ≤ policy.full_body_limit
  pub outcomes_bounded : p.bodies_cached + p.bodies_skipped ≤ p.body_requests

-- the state between two rounds, `rounds` of which are left
pub record InLoop (policy : SyncPolicy) (rounds : ℕ) (s : Snapshot) : Type 0 where
  pub rounds_left : s.progress.pages + rounds ≤ policy.max_pages
  pub is_counted : IsCounted policy.keep_limit s

-- what the page loop hands on to the store
pub record IsSnapshot (policy : SyncPolicy) (s : Snapshot) : Type 0 where
  pub pages_bounded : s.progress.pages ≤ policy.max_pages
  pub is_counted : IsCounted policy.keep_limit s
  pub kept : length s.envelopes ≤ policy.keep_limit

abbrev pub RoundWithin : SyncPolicy → ℕ → Round → Type 0
RoundWithin policy rounds (failed f) = WithinPolicy policy f.progress
RoundWithin policy rounds (done s) = IsSnapshot policy s
RoundWithin policy rounds (next s token) =
    InLoop policy rounds s × (length s.envelopes ≤ policy.keep_limit)

truncate-IsCounted :
    (capacity : ℕ) (s : Snapshot) → IsCounted capacity s → IsCounted capacity (truncate capacity s)
truncate-IsCounted capacity s i = record {
  counted = ground (arith, i.counted, length-take-min capacity s.envelopes);
  distinct = distinct-take capacity s.envelopes i.distinct;
  no_requests = i.no_requests;
  none_cached = i.none_cached;
  none_skipped = i.none_skipped;
}

loop_done :
    (policy : SyncPolicy) (rounds : ℕ) (s : Snapshot)
    → InLoop policy rounds s
    → IsSnapshot policy (truncate policy.keep_limit s)
loop_done policy rounds s l = record {
  pages_bounded = omega (arith, l.rounds_left);
  is_counted = truncate-IsCounted policy.keep_limit s l.is_counted;
  kept = length-take-le policy.keep_limit s.envelopes;
}

marked :
    (policy : SyncPolicy) (s : Snapshot)
    → IsSnapshot policy s
    → IsSnapshot policy (mark_truncated s)
marked policy s i = record {
  pages_bounded = i.pages_bounded;
  is_counted = record {
    counted = i.is_counted.counted;
    distinct = i.is_counted.distinct;
    no_requests = i.is_counted.no_requests;
    none_cached = i.is_counted.none_cached;
    none_skipped = i.is_counted.none_skipped;
  };
  kept = i.kept;
}

with_token :
    (policy : SyncPolicy) (s : Snapshot) (ts : List Text)
    → IsSnapshot policy s
    → IsSnapshot policy (record s { tokens = ts })
with_token policy s ts i = record {
  pages_bounded = i.pages_bounded;
  is_counted = record {
    counted = i.is_counted.counted;
    distinct = i.is_counted.distinct;
    no_requests = i.is_counted.no_requests;
    none_cached = i.is_counted.none_cached;
    none_skipped = i.is_counted.none_skipped;
  };
  kept = i.kept;
}

loop_failed :
    (policy : SyncPolicy) (rounds : ℕ) (s : Snapshot)
    → InLoop policy rounds s
    → WithinPolicy policy s.progress
loop_failed policy rounds s l = omega (
  arith, l.rounds_left, l.is_counted.counted, l.is_counted.no_requests, l.is_counted.none_cached,
  l.is_counted.none_skipped,
)

finish_round-Within :
    (policy : SyncPolicy) (rounds : ℕ) (continuation : Option Text) (s : Snapshot)
    → InLoop policy rounds s
    → RoundWithin policy rounds (finish_round policy continuation s)
unfolding finish_round
finish_round-Within policy rounds none s l =
    elim (Bool-cases (leb policy.keep_limit (length s.envelopes))) [
      | inl full ↦ rw full (marked policy _ (loop_done policy rounds s l))
      | inr open_ ↦ rw open_ (loop_done policy rounds s l)
    ]
finish_round-Within policy rounds (some token) s l =
    let t = truncate policy.keep_limit s in
    let ts = t.tokens ++ (token ∷ []) in
    let i : IsSnapshot policy (record t { tokens = ts }) =
      with_token policy t ts (loop_done policy rounds s l) in
    elim (Bool-cases (any (λ seen. text_eq seen token) s.tokens)) [
      | inl repeated ↦ rw repeated (loop_failed policy rounds s l)
      | inr new ↦ rw new (elim (Bool-cases (leb policy.keep_limit (length s.envelopes))) [
        | inl full ↦ rw full (marked policy _ (loop_done policy rounds s l))
        | inr open_ ↦ rw open_ (elim (Bool-cases (s.progress.pages == policy.max_pages)) [
          | inl last ↦ rw last (marked policy _ i)
          | inr more ↦
              rw more (record { rounds_left = l.rounds_left; is_counted = i.is_counted }, i.kept)
        ])
      ])
    ]

Accepted-Within :
    (policy : SyncPolicy) (rounds : ℕ) (continuation : Option Text) (s : Snapshot)
    (r : Result SyncFailure Snapshot)
    → s.progress.pages + rounds ≤ policy.max_pages
    → Accepted policy.keep_limit s r
    → RoundWithin policy rounds (accepted_round policy continuation r)
Accepted-Within policy rounds continuation s (ok t) l a =
    finish_round-Within policy rounds continuation t
      (record { rounds_left = omega (arith, a.1); is_counted = a.0 })
Accepted-Within policy rounds continuation s (err f) l a = omega (arith, a.0, a.1, a.2, a.3, a.4)

-- the limits that the constructors of a policy and of its parts enforce
pub record IsPolicy (policy : SyncPolicy) : Type 0 where
  pub few_pages : policy.max_pages ≤ 1000
  pub small_limit : policy.keep_limit ≤ 10000
  pub fewer_bodies : policy.full_body_limit ≤ policy.keep_limit

pub page_round-Within :
    (policy : SyncPolicy) (rounds : ℕ) (s : Snapshot) (page : Page MessageEnvelope)
    → IsPolicy policy
    → InLoop policy (suc rounds) s
    → RoundWithin policy rounds (page_round policy s page)
unfolding page_round
page_round-Within policy rounds s page p l =
    let counted_page = record s {
      progress = record s.progress { pages = increment s.progress.pages };
    } in
    let c : IsCounted policy.keep_limit counted_page = record {
      counted = l.is_counted.counted;
      distinct = l.is_counted.distinct;
      no_requests = l.is_counted.no_requests;
      none_cached = l.is_counted.none_cached;
      none_skipped = l.is_counted.none_skipped;
    } in
    let left : increment s.progress.pages + rounds ≤ policy.max_pages =
      omega (arith, l.rounds_left, p.few_pages) in
    elim (Bool-cases (ltb policy.page_size (length page.items))) [
      | inl oversized ↦
          rw oversized
            (loop_failed policy rounds counted_page (record { rounds_left = left; is_counted = c }))
      | inr fits ↦ rw fits (
          Accepted-Within policy rounds page.next_token counted_page _ left
            (accept_items-Accepted policy.keep_limit page.items counted_page p.small_limit c))
    ]

-- A policy that `SyncPolicy::new` accepts, for a keep limit that `StoreLimit::new` accepts, has
-- 1 to 1000 pages and asks for no more bodies than it keeps.
pub new_policy-IsPolicy :
    (page_size max_pages keep_limit full_body_limit : ℕ) (policy : SyncPolicy)
    → keep_limit ≤ 10000
    → new_policy page_size max_pages keep_limit full_body_limit ≡ ok policy
    → IsPolicy policy × (policy.max_pages ≡ max_pages) × (1 ≤ max_pages)
unfolding new_policy
new_policy-IsPolicy page_size max_pages keep_limit full_body_limit policy k h = ground arith
