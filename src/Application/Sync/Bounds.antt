-- ===== src/Application/Sync/Bounds.antt =====
-- The counters and the snapshot of a sync stay within its policy, on success and on failure, and
-- no counter wraps around, whatever the two ports answer.
use tersa_app.Prelude.{
  ℕ, zero, suc, ◌+◌, ◌≤◌, ◌≡◌, refl, Bool, true, false, Option, none, some, List, [], ◌∷◌, length,
  take, length-take-le, arith, inl, inr, Bool-cases,
}
use tersa_app.Prelude.Result.{Result, ok, err}
use tersa_app.Prelude.Action.{Action, pure, raise, on_result, on_result-Holds, >>=-Holds}
use tersa_app.Prelude.Text.{Text, text_eq}
use tersa_app.Domain.Mailbox.{AccountId, MessageId}
use tersa_app.Application.Mailbox.{
  RemoteMailboxError, authorization_required, rate_limited, not_found, transport, invalid_response,
}
use tersa_app.Application.Identity.{IdentityHash}
use tersa_app.Application.SyncPolicy.{
  SyncPolicy, SyncProgress, no_progress, SyncFailure, failure, store_failure_source, remote,
}
use tersa_app.Application.Sync.{
  Snapshot, page_round, Round, failed, done, next, Ports, after_round, after_missing, collect_pages,
  count_request, count_cached, count_skipped, fetch_body, fetch_bodies, sync_with_flight,
}
use tersa_app.Application.Sync.Rounds.{
  WithinPolicy, InLoop, IsSnapshot, IsPolicy, RoundWithin, page_round-Within,
}
use tersa_app.Application.Sync.Items.{distinct_ids}

-- what the page loop ends with
abbrev Collected : SyncPolicy → Result SyncFailure Snapshot → Type 0
Collected policy (ok s) = IsSnapshot policy s
Collected policy (err f) = WithinPolicy policy f.progress

module _ {W : Type 0} (ports : Ports W) (account : AccountId) (policy : SyncPolicy)
    (fence : IdentityHash) (p : IsPolicy policy) where
  InLoop-Within :
      (rounds : ℕ) (s : Snapshot) → InLoop policy rounds s → WithinPolicy policy s.progress
  InLoop-Within rounds s l = omega (
    arith, l.rounds_left, l.is_counted.counted, l.is_counted.no_requests, l.is_counted.none_cached,
    l.is_counted.none_skipped,
  )

  after_round-Collected :
      (rounds : ℕ) (again : Snapshot → Text → Action W SyncFailure Snapshot) (r : Round) (w : W)
      → RoundWithin policy rounds r
      → ((s : Snapshot) (token : Text)
          → InLoop policy rounds s
          → length s.envelopes ≤ policy.keep_limit
          → Collected policy (again s token w).0)
      → Collected policy (after_round ports account policy fence again r w).0
  after_round-Collected rounds again (failed f) w h k = h
  after_round-Collected rounds again (done s) w h k = h
  after_round-Collected rounds again (next s token) w h k = k s token h.0 h.1

  collect_pages-Collected :
      (rounds : ℕ) (token : Option Text) (s : Snapshot) (w : W)
      → InLoop policy rounds s
      → length s.envelopes ≤ policy.keep_limit
      → Collected policy (collect_pages ports account policy fence rounds token s w).0
  unfolding collect_pages
  collect_pages-Collected zero token s w l k = record {
    pages_bounded = omega (arith, l.rounds_left);
    is_counted = l.is_counted;
    kept = k;
  }
  collect_pages-Collected (suc rounds) token s w l k =
      on_result-Holds (ports.list_recent_envelopes account policy.page_size token)
        (λ page.
          after_round ports account policy fence
            (λ t n. collect_pages ports account policy fence rounds (some n) t)
            (page_round policy s page))
        (λ error. raise (failure (remote error) s.progress)) w (Collected policy)
        (λ page w'.
          after_round-Collected rounds _ (page_round policy s page) w'
            (page_round-Within policy rounds s page p l)
            (λ t n i j. collect_pages-Collected rounds (some n) t w' i j))
        (λ error w'. InLoop-Within (suc rounds) s l)

  -- between two bodies, `left` of which may still be asked for
  record InBodies (left : ℕ) (q : SyncProgress) : Type 0 where
    requests_left : q.body_requests + left ≤ policy.full_body_limit
    settled : q.bodies_cached + q.bodies_skipped ≡ q.body_requests
    pages_bounded : q.pages ≤ policy.max_pages
    envelopes_bounded : q.envelopes ≤ policy.keep_limit

  abbrev Fetched : ℕ → Result SyncFailure SyncProgress → Type 0
  Fetched left (ok q) = InBodies left q
  Fetched left (err f) = WithinPolicy policy f.progress

  requested-Within :
      (left : ℕ) (q : SyncProgress)
      → InBodies (suc left) q
      → WithinPolicy policy (count_request ports account policy fence q)
  requested-Within left q i = omega (
    arith, i.requests_left, i.settled, i.pages_bounded, i.envelopes_bounded, p.small_limit,
    p.fewer_bodies,
  )

  skipped-InBodies :
      (left : ℕ) (q : SyncProgress)
      → InBodies (suc left) q
      → InBodies left
          (count_skipped ports account policy fence (count_request ports account policy fence q))
  skipped-InBodies left q i = omega (
    arith, i.requests_left, i.settled, i.pages_bounded, i.envelopes_bounded, p.small_limit,
    p.fewer_bodies,
  )

  cached-InBodies :
      (left : ℕ) (cached : Bool) (q : SyncProgress)
      → InBodies (suc left) q
      → InBodies left (
          count_cached ports account policy fence cached
            (count_request ports account policy fence q))
  cached-InBodies left false q i = skipped-InBodies left q i
  cached-InBodies left true q i = omega (
    arith, i.requests_left, i.settled, i.pages_bounded, i.envelopes_bounded, p.small_limit,
    p.fewer_bodies,
  )

  missing-Fetched :
      (left : ℕ) (q : SyncProgress) (e : RemoteMailboxError) (w : W)
      → InBodies (suc left) q
      → Fetched left
          (after_missing ports account policy fence
            (count_request ports account policy fence q)
            e
            w).0
  missing-Fetched left q not_found w i = skipped-InBodies left q i
  missing-Fetched left q authorization_required w i = requested-Within left q i
  missing-Fetched left q rate_limited w i = requested-Within left q i
  missing-Fetched left q transport w i = requested-Within left q i
  missing-Fetched left q invalid_response w i = requested-Within left q i

  fetch_body-Fetched :
      (left : ℕ) (id : MessageId) (q : SyncProgress) (w : W)
      → InBodies (suc left) q
      → Fetched left (fetch_body ports account policy fence id q w).0
  unfolding fetch_body
  fetch_body-Fetched left id q w i =
      on_result-Holds (ports.fetch_message account id) _
        (after_missing ports account policy fence (count_request ports account policy fence q)) w
        (Fetched left)
        (λ message w'. elim (Bool-cases (text_eq message.envelope.message_id id)) [
          | inr other ↦ rw other (requested-Within left q i)
          | inl same ↦ rw same (
              on_result-Holds (ports.cache_message_if_present account message fence) _ _ w'
                (Fetched left) (λ cached v. cached-InBodies left cached q i)
                (λ e v. requested-Within left q i))
        ])
        (λ e w'. missing-Fetched left q e w' i)

  fetch_bodies-Fetched :
      (ids : List MessageId) (q : SyncProgress) (w : W)
      → InBodies (length ids) q
      → Fetched 0 (fetch_bodies ports account policy fence ids q w).0
  unfolding fetch_bodies
  fetch_bodies-Fetched [] q w i = i
  fetch_bodies-Fetched (id ∷ ids) q w i =
      >>=-Holds (fetch_body ports account policy fence id q)
        (λ r. fetch_bodies ports account policy fence ids r) w (Fetched (length ids)) (Fetched 0)
        (fetch_body-Fetched (length ids) id q w i) (λ r v j. fetch_bodies-Fetched ids r v j)
        (λ f j. j)

  -- A snapshot that was collected leaves room for the bodies.
  first_body :
      (survivors : List MessageId) (s : Snapshot) (q : SyncProgress)
      → IsSnapshot policy s
      → InBodies (length (take policy.full_body_limit survivors)) s.progress
  first_body survivors s q i = record {
    requests_left =
        omega (arith, i.is_counted.no_requests, length-take-le policy.full_body_limit survivors);
    settled =
        omega
          (arith, i.is_counted.no_requests, i.is_counted.none_cached, i.is_counted.none_skipped);
    pages_bounded = i.pages_bounded;
    envelopes_bounded = omega (arith, i.is_counted.counted);
  }

-- the report of a sync: within the policy, and every request for a body was settled
abbrev pub Reported : SyncPolicy → Result SyncFailure SyncProgress → Type 0
Reported policy (ok q) =
    WithinPolicy policy q × (q.bodies_cached + q.bodies_skipped ≡ q.body_requests)
Reported policy (err f) = WithinPolicy policy f.progress

snapshot-Within :
    (policy : SyncPolicy) (s : Snapshot) → IsSnapshot policy s → WithinPolicy policy s.progress
snapshot-Within policy s i = omega (
  arith, i.pages_bounded, i.is_counted.counted, i.is_counted.no_requests, i.is_counted.none_cached,
  i.is_counted.none_skipped,
)

Fetched-Reported :
    {W : Type 0} (ports : Ports W) (account : AccountId) (policy : SyncPolicy)
    (fence : IdentityHash) (p : IsPolicy policy) (r : Result SyncFailure SyncProgress)
    → Fetched ports account policy fence p 0 r
    → Reported policy r
Fetched-Reported ports account policy fence p (err f) h = h
Fetched-Reported ports account policy fence p (ok q) h =
    (omega (arith, h.requests_left, h.settled, h.pages_bounded, h.envelopes_bounded), h.settled)

-- Under a valid policy, whatever the remote and the store answer, a sync ends with counters within
-- the policy: at most `max_pages` pages, `keep_limit` envelopes and `full_body_limit` requests for
-- a body, on success and in the progress of every failure. On success each request is counted as
-- either cached or skipped.
pub sync_with_flight-Reported :
    {W : Type 0} (ports : Ports W) (account : AccountId) (policy : SyncPolicy)
    (fence : IdentityHash) (w : W)
    → IsPolicy policy
    → Reported policy (sync_with_flight ports account policy fence w).0
unfolding sync_with_flight distinct_ids
sync_with_flight-Reported ports account policy fence w p =
    >>=-Holds
      (collect_pages ports account policy fence policy.max_pages none
        (record { progress = no_progress; envelopes = []; tokens = [] }))
      _ w (Collected policy) (Reported policy)
      (collect_pages-Collected ports account policy fence p policy.max_pages none _ w start
        (omega arith))
      (λ s v i.
        >>=-Holds
          (on_result (ports.reconcile_recent_envelopes account s.envelopes policy.keep_limit fence)
            pure (λ e. raise (failure (store_failure_source e) s.progress)))
          _ v (Reconciled) (Reported policy)
          (on_result-Holds
            (ports.reconcile_recent_envelopes account s.envelopes policy.keep_limit fence) pure _ v
            (Reconciled) (λ ids u. tt) (λ e u. snapshot-Within policy s i))
          (λ survivors u j. Fetched-Reported ports account policy fence p _ (
            fetch_bodies-Fetched ports account policy fence p
              (take policy.full_body_limit survivors) s.progress u
              (first_body ports account policy fence p survivors s s.progress i)))
          (λ f j. j))
      (λ f i. i)
  where
    start :
        InLoop policy policy.max_pages
          (record { progress = no_progress; envelopes = []; tokens = [] })
    start = record {
      rounds_left = omega arith;
      is_counted = record {
        counted = omega arith;
        distinct = refl;
        no_requests = refl;
        none_cached = refl;
        none_skipped = refl;
      };
    }

    Reconciled : Result SyncFailure (List MessageId) → Type 0
    Reconciled (ok ids) = Unit {0}
    Reconciled (err f) = WithinPolicy policy f.progress
