-- ===== src/Runtime/Gate.antt =====
-- adapters/sync-runtime/src/gate.rs: the identity gate, and the sync behind it. The hasher and the
-- store are parameters, over a world that each call of the store may change.
pub mod Fresh
use tersa_app.Prelude.{ℕ, zero, suc, Option, none, some, List, [], Bool, false}
use tersa_app.Prelude.Result.{Result, ok, err}
use tersa_app.Prelude.Action.{Action, pure, raise, ◌>>=◌, on_result, lift}
use tersa_app.Prelude.Text.{Text}
use tersa_app.Domain.Mailbox.{AccountId}
use tersa_app.Application.Mailbox.{
  MailboxStoreError, storage, corrupted, identity_changed, identity_raced,
}
use tersa_app.Application.Identity.{
  IdentityHash, HasherError, GateError, hasher, store, IdentityReconcile, record_only,
  clear_mailbox_and_record, IdentityDecision, first_record, match, clear_and_record, decide,
  normalize_subject,
}
use tersa_app.Application.SyncPolicy.{SyncPolicy, SyncProgress, SyncFailure}
use tersa_app.Application.Sync.{Ports, Coordinator, sync_recent}

abbrev pub max_gate_attempts : ℕ
max_gate_attempts = 4

-- `AccountIdentityHasher` and `AccountIdentityStore`
pub record GatePorts (W : Type 0) : Type 0 where
  pub hash : AccountId → Text → Result HasherError IdentityHash
  pub load_identity : AccountId → Action W MailboxStoreError (Option IdentityHash)
  pub reconcile_identity :
      AccountId
      → IdentityHash
      → IdentityReconcile
      → Option IdentityHash
      → Action W MailboxStoreError (Unit {0})

module _ {W : Type 0} where
  -- what follows a failed record: another attempt on a lost race, and else the error
  abbrev pub after_race :
      Action W GateError IdentityHash → MailboxStoreError → Action W GateError IdentityHash
  after_race again identity_raced = again
  after_race again other = raise (store other)

  abbrev pub record_identity :
      GatePorts W
      → AccountId
      → IdentityHash
      → Option IdentityHash
      → Action W GateError IdentityHash
      → IdentityReconcile
      → Action W GateError IdentityHash
  record_identity ports account fresh stored again action =
      on_result (ports.reconcile_identity account fresh action stored) (λ _. pure fresh)
        (after_race again)

  abbrev pub act_on :
      GatePorts W
      → AccountId
      → IdentityHash
      → Option IdentityHash
      → Action W GateError IdentityHash
      → IdentityDecision
      → Action W GateError IdentityHash
  act_on ports account fresh stored again match = pure fresh
  act_on ports account fresh stored again first_record =
      record_identity ports account fresh stored again record_only
  act_on ports account fresh stored again clear_and_record =
      record_identity ports account fresh stored again clear_mailbox_and_record

  -- `for _ in 0..MAX_GATE_ATTEMPTS { … }`
  unfoldable pub gate_attempts :
      ℕ → GatePorts W → AccountId → IdentityHash → Action W GateError IdentityHash
  unfolding decide
  gate_attempts zero ports account fresh = raise (store identity_raced)
  gate_attempts (suc attempts) ports account fresh =
      let again = gate_attempts attempts ports account fresh in
      on_result (ports.load_identity account)
        (λ stored. act_on ports account fresh stored again (decide stored fresh))
        (λ e. raise (store e))

  abbrev pub after_hash :
      GatePorts W → AccountId → Result HasherError IdentityHash → Action W GateError IdentityHash
  after_hash ports account (err e) = raise (hasher e)
  after_hash ports account (ok fresh) = gate_attempts max_gate_attempts ports account fresh

  -- `run_identity_gate`
  unfoldable pub run_identity_gate :
      GatePorts W → AccountId → Text → Action W GateError IdentityHash
  unfolding gate_attempts normalize_subject
  run_identity_gate ports account subject =
      after_hash ports account (ports.hash account (normalize_subject subject))

pub data GatedSyncError : Type 0 where
  gate : GateError → GatedSyncError
  sync : SyncFailure → GatedSyncError

-- `gated_sync`: the coordinator is new, so no account is active in it
unfoldable pub gated_sync :
    {W : Type 0}
    → GatePorts W
    → Ports W
    → AccountId
    → Text
    → SyncPolicy
    → Action W GatedSyncError SyncProgress
unfolding run_identity_gate sync_recent
gated_sync gates ports account subject policy = do
  fence ← on_result (run_identity_gate gates account subject) pure (λ e. raise (gate e))
  (λ w.
      let (r, c) =
        on_result (sync_recent ports account policy fence) pure (λ e. raise (sync e))
          (record { world = w; active_accounts = []; poisoned = false }) in
      (r, c.world))
