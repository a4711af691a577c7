-- ===== src/Application/Sync.antt =====
-- crates/application/src/sync.rs: one bounded snapshot of recent mail. The two mailbox ports are a
-- parameter, over a world of their own that each call may change.
pub mod Items
pub mod Rounds
pub mod Bounds
pub mod Flight
use tersa_app.Prelude.{
  ℕ, zero, suc, ◌+◌, ◌%◌, Bool, true, false, not, ◌&&◌, Option, none, some, List, [], ◌∷◌, ◌++◌,
  length, take, any, keep, ltb, leb, if◌then◌else◌,
}
use tersa_app.Prelude.Tests.{◌==◌}
use tersa_app.Prelude.Int.{eq_ℤ}
use tersa_app.Prelude.Result
use tersa_app.Prelude.Result.{Result, ok, err}
use tersa_app.Prelude.Action.{Action, pure, raise, ◌>>=◌, ◌>>◌, on_result}
use tersa_app.Prelude.Text.{Text, text_eq}
use tersa_app.Domain.Mailbox.{AccountId, MessageId, MessageEnvelope, Message}
use tersa_app.Application.Mailbox.{
  Page, RemoteMailboxError, authorization_required, rate_limited, not_found, transport,
  invalid_response, MailboxStoreError, storage, corrupted, identity_changed, identity_raced,
}
use tersa_app.Application.SyncPolicy.{
  SyncPolicy, SyncProtocolError, oversized_page, repeated_continuation, conflicting_duplicate,
  mismatched_fetched_message, SyncFailureSource, remote, protocol, single_flight, SyncProgress,
  no_progress, SyncFailure, failure, increment, store_failure_source,
}
use tersa_app.Application.Identity.{IdentityHash}

-- the derived `==` of envelopes
unfoldable pub envelope_eq : MessageEnvelope → MessageEnvelope → Bool
envelope_eq a b =
    text_eq a.message_id b.message_id
    && text_eq a.thread_id b.thread_id
    && text_eq a.from b.from
    && text_eq a.subject b.subject
    && text_eq a.preview b.preview
    && eq_ℤ a.received_at b.received_at
    && (if a.unread then b.unread else not b.unread)

-- `envelope_positions.get(id)`, and the envelope at that position
unfoldable pub find_envelope : MessageId → List MessageEnvelope → Option MessageEnvelope
find_envelope id [] = none
find_envelope id (e ∷ es) = if text_eq e.message_id id then some e else find_envelope id es

-- what a page loop holds: the progress, the envelopes and the continuations seen
pub record Snapshot : Type 0 where
  pub progress : SyncProgress
  pub envelopes : List MessageEnvelope
  pub tokens : List Text

-- `envelopes.push(envelope); if envelopes.len() <= capacity { progress.envelopes += 1; }`
unfoldable pub push_envelope : ℕ → MessageEnvelope → Snapshot → Snapshot
push_envelope capacity e s =
    let es = s.envelopes ++ (e ∷ []) in
    record s {
      envelopes = es;
      progress = record s.progress {
        envelopes =
            if leb (length es) capacity
            then increment s.progress.envelopes
            else s.progress.envelopes;
      };
    }

abbrev pub is_some : Option MessageEnvelope → Bool
is_some none = false
is_some (some _) = true

-- `envelopes[*position] != envelope`, where there is such a position
abbrev pub conflicts : MessageEnvelope → Option MessageEnvelope → Bool
conflicts e none = false
conflicts e (some known) = not (envelope_eq known e)

-- `for envelope in items { … }`
unfoldable pub accept_items : ℕ → List MessageEnvelope → Snapshot → Result SyncFailure Snapshot
accept_items capacity [] s = ok s
accept_items capacity (e ∷ es) s =
    let position = find_envelope e.message_id s.envelopes in
    let skipped = accept_items capacity es s in
    let pushed = accept_items capacity es (push_envelope capacity e s) in
    let duplicate =
      (if conflicts e position
        then err (failure (protocol conflicting_duplicate) s.progress)
        else skipped) in
    if is_some position then duplicate else pushed

-- `if envelopes.len() > capacity { envelopes.truncate(capacity); }`
abbrev pub truncate : ℕ → Snapshot → Snapshot
truncate capacity s = record s { envelopes = take capacity s.envelopes }

abbrev pub mark_truncated : Snapshot → Snapshot
mark_truncated s = record s { progress = record s.progress { snapshot_truncated = true } }

-- how a round of the page loop ends: with an error, with `break`, or with the next continuation
pub data Round : Type 0 where
  failed : SyncFailure → Round
  done : Snapshot → Round
  next : Snapshot → Text → Round

-- the rest of a round once the items were accepted
unfoldable pub finish_round : SyncPolicy → Option Text → Snapshot → Round
finish_round policy continuation s =
    let reached_keep_limit = leb policy.keep_limit (length s.envelopes) in
    let t = truncate policy.keep_limit s in
    elim continuation [
      | none ↦ if reached_keep_limit then done (mark_truncated t) else done t
      | some token ↦
          if any (λ seen. text_eq seen token) s.tokens
          then failed (failure (protocol repeated_continuation) s.progress)
          else if reached_keep_limit
          then done (mark_truncated t)
          else (let u = record t { tokens = t.tokens ++ (token ∷ []) } in
              if u.progress.pages == policy.max_pages
              then done (mark_truncated u)
              else next u token)
    ]

abbrev pub accepted_round : SyncPolicy → Option Text → Result SyncFailure Snapshot → Round
accepted_round policy continuation (ok s) = finish_round policy continuation s
accepted_round policy continuation (err f) = failed f

-- a round of the page loop, once the page has come
unfoldable pub page_round : SyncPolicy → Snapshot → Page MessageEnvelope → Round
unfolding accept_items finish_round
page_round policy s page =
    let counted = record s {
      progress = record s.progress { pages = increment s.progress.pages };
    } in
    if ltb policy.page_size (length page.items)
    then failed (failure (protocol oversized_page) counted.progress)
    else accepted_round policy page.next_token (accept_items policy.keep_limit page.items counted)

-- `RemoteMailbox` and the two operations of `MailboxStore` that a sync calls
pub record Ports (W : Type 0) : Type 0 where
  pub list_recent_envelopes :
      AccountId → ℕ → Option Text → Action W RemoteMailboxError (Page MessageEnvelope)
  pub fetch_message : AccountId → MessageId → Action W RemoteMailboxError Message
  pub reconcile_recent_envelopes :
      AccountId
      → List MessageEnvelope
      → ℕ
      → IdentityHash
      → Action W MailboxStoreError (List MessageId)
  pub cache_message_if_present :
      AccountId → Message → IdentityHash → Action W MailboxStoreError Bool

module _ {W : Type 0} (ports : Ports W) (account : AccountId) (policy : SyncPolicy)
    (fence : IdentityHash) where
  abbrev pub after_round :
      (Snapshot → Text → Action W SyncFailure Snapshot) → Round → Action W SyncFailure Snapshot
  after_round again (failed f) = raise f
  after_round again (done s) = pure s
  after_round again (next s token) = again s token

  -- `for _ in 0..policy.max_pages { … }`
  unfoldable pub collect_pages : ℕ → Option Text → Snapshot → Action W SyncFailure Snapshot
  unfolding page_round
  collect_pages zero next_token s = pure s
  collect_pages (suc rounds) next_token s =
      let again = (λ (t : Snapshot) (token : Text). collect_pages rounds (some token) t) in
      on_result (ports.list_recent_envelopes account policy.page_size next_token)
        (λ page. after_round again (page_round policy s page))
        (λ error. raise (failure (remote error) s.progress))

  abbrev pub count_request : SyncProgress → SyncProgress
  count_request p = record p { body_requests = increment p.body_requests }

  abbrev pub count_skipped : SyncProgress → SyncProgress
  count_skipped p = record p { bodies_skipped = increment p.bodies_skipped }

  abbrev pub count_cached : Bool → SyncProgress → SyncProgress
  count_cached true p = record p { bodies_cached = increment p.bodies_cached }
  count_cached false p = count_skipped p

  abbrev pub after_missing : SyncProgress → RemoteMailboxError → Action W SyncFailure SyncProgress
  after_missing p not_found = pure (count_skipped p)
  after_missing p other = raise (failure (remote other) p)

  -- one round of the body loop
  unfoldable pub fetch_body : MessageId → SyncProgress → Action W SyncFailure SyncProgress
  fetch_body id before =
      let p = count_request before in
      on_result (ports.fetch_message account id)
        (λ message.
          if not (text_eq message.envelope.message_id id)
          then raise (failure (protocol mismatched_fetched_message) p)
          else on_result (ports.cache_message_if_present account message fence)
              (λ cached. pure (count_cached cached p))
              (λ error. raise (failure (store_failure_source error) p)))
        (after_missing p)

  -- `for id in survivors.into_iter().take(body_limit) { … }`
  unfoldable pub fetch_bodies : List MessageId → SyncProgress → Action W SyncFailure SyncProgress
  unfolding fetch_body
  fetch_bodies [] p = pure p
  fetch_bodies (id ∷ ids) p = fetch_body id p >>= λ q. fetch_bodies ids q

  unfoldable pub sync_with_flight : Action W SyncFailure SyncProgress
  unfolding collect_pages fetch_bodies store_failure_source
  sync_with_flight = do
    s ←
        collect_pages policy.max_pages none
          (record { progress = no_progress; envelopes = []; tokens = [] })
    survivors ←
        on_result (ports.reconcile_recent_envelopes account s.envelopes policy.keep_limit fence)
          pure (λ error. raise (failure (store_failure_source error) s.progress))
    fetch_bodies (take policy.full_body_limit survivors) s.progress

-- `SyncCoordinator`: the accounts with a flight in the air, behind a lock, and the ports' world
pub record Coordinator (W : Type 0) : Type 0 where
  pub world : W
  pub active_accounts : List AccountId
  pub poisoned : Bool

module _ {W : Type 0} where
  abbrev pub is_active : AccountId → Coordinator W → Bool
  is_active account c = any (λ a. text_eq a account) c.active_accounts

  unfoldable pub acquire : AccountId → Action (Coordinator W) SyncFailure (Unit {0})
  acquire account c =
      if c.poisoned
      then (err (failure single_flight no_progress), c)
      else if is_active account c
      then (err (failure single_flight no_progress), c)
      else (ok tt, record c { active_accounts = account ∷ c.active_accounts })

  -- `impl Drop for SyncFlight`
  unfoldable pub release : AccountId → Coordinator W → Coordinator W
  release account c =
      if c.poisoned
      then c
      else record c { active_accounts = keep (λ a. not (text_eq a account)) c.active_accounts }

  unfoldable pub sync_recent :
      Ports W
      → AccountId
      → SyncPolicy
      → IdentityHash
      → Action (Coordinator W) SyncFailure SyncProgress
  unfolding acquire release
  sync_recent ports account policy fence = do
    acquire account
    (λ c.
        let (r, w) = sync_with_flight ports account policy fence c.world in
        (r, release account (record c { world = w })))
