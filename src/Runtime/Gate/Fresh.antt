-- ===== src/Runtime/Gate/Fresh.antt =====
-- The gate over a mailbox store that others change too: the hash that it returns is the recorded
-- one, and the messages of another account are gone.
use tersa_app.Prelude.{
  ℕ, zero, suc, ◌≡◌, refl, ap, sym, ◌∙◌, Option, none, some, List, [], ◌∷◌, if◌then◌else◌, arith,
  Bool-cases, inl, inr, length, subst,
}
use tersa_app.Prelude.Result.{Result, ok, err}
use tersa_app.Prelude.Action.{Action, continue, raise, pure}
use tersa_app.Prelude.Text.{Text, text_eq_iff}
use tersa_app.Domain.Mailbox.{AccountId}
use tersa_app.Application.Mailbox.{
  MailboxStoreError, storage, corrupted, identity_changed, identity_raced,
}
use tersa_app.Application.Identity.{
  IdentityHash, hash_eq, HasherError, GateError, store, IdentityReconcile, record_only,
  clear_mailbox_and_record, decide, normalize_subject,
}
use tersa_app.Store.Schema.{Row}
use tersa_app.Store.Connection.{Store, checked_account, with_connection, statement}
use tersa_app.Store.Messages.{recorded_identity, read_recorded_identity}
use tersa_app.Store.Identity.{load_identity, reconcile_identity, clears_mailbox, read_identity_hash}
use tersa_app.Store.Identity.Fence.{write_identity_hash_lem}
use tersa_app.Runtime.Gate.{
  GatePorts, gate_attempts, act_on, after_race, record_identity, run_identity_gate, after_hash,
  max_gate_attempts,
}

-- the store with what others do to it: before each call of the gate comes the next of their changes,
-- and the store is journaled as the call found it
pub record Contended : Type 0 where
  pub store : Store
  pub others : List (Store → Store)
  pub found : Store

abbrev pub interfered : Store → List (Store → Store) → Store
interfered s [] = s
interfered s (change ∷ changes) = change s

abbrev pub later : List (Store → Store) → List (Store → Store)
later [] = []
later (change ∷ changes) = changes

-- the store that the next call finds
abbrev pub meets : Contended → Store
meets c = interfered c.store c.others

abbrev pub left : Contended → Store → Contended
left c s = record { store = s; others = later c.others; found = meets c }

abbrev pub contended :
    {A : Type 0} → Action Store MailboxStoreError A → Action Contended MailboxStoreError A
contended m c = let (r, s) = m (meets c) in (r, left c s)

-- the gate's ports over the SQLCipher store
abbrev pub store_ports : (AccountId → Text → Result HasherError IdentityHash) → GatePorts Contended
store_ports hash = record {
  hash = hash;
  load_identity = λ account. contended (load_identity account);
  reconcile_identity =
      λ account fresh action stored. contended (reconcile_identity account fresh action stored);
}

-- what is left of the messages once the fresh hash has met the recorded one
unfoldable pub surviving :
    Result MailboxStoreError (Option IdentityHash) → IdentityHash → List Row → List Row
surviving (err e) fresh rows = rows
surviving (ok none) fresh rows = rows
surviving (ok (some stored)) fresh rows = if hash_eq stored fresh then rows else []

load_sound :
    (account : AccountId) (s : Store) (r : Option IdentityHash)
    → (load_identity account s).0 ≡ ok r
    → recorded_identity account s.db ≡ ok r
unfolding load_identity read_identity_hash read_recorded_identity with_connection statement
    checked_account
load_sound account s r h = ground arith

load_keeps : (account : AccountId) (s : Store) → (load_identity account s).1.db ≡ s.db
unfolding load_identity read_identity_hash read_recorded_identity with_connection statement
    checked_account
load_keeps account s = ground arith

record_sound :
    (account : AccountId) (fresh : IdentityHash) (action : IdentityReconcile)
    (stored : Option IdentityHash) (s : Store)
    → length fresh ≡ 32
    → (reconcile_identity account fresh action stored s).0 ≡ ok tt
    → let s' = (reconcile_identity account fresh action stored s).1 in
      (recorded_identity account s.db ≡ ok stored)
      × (recorded_identity account s'.db ≡ ok (some fresh))
      × (s'.db.messages ≡ (if clears_mailbox action then [] else s.db.messages))
unfolding reconcile_identity checked_account
record_sound account fresh action stored s l h =
    ground (arith, write_identity_hash_lem account fresh (clears_mailbox action) stored s l)

-- the gate came through with the fresh hash, in a last call that found what the journal says
record Settled (account : AccountId) (fresh f : IdentityHash) (c : Contended) : Type 0 where
  same : f ≡ fresh
  recorded : recorded_identity account c.store.db ≡ ok (some fresh)
  messages :
      c.store.db.messages
      ≡ surviving (recorded_identity account c.found.db) fresh c.found.db.messages

module _ (hash : AccountId → Text → Result HasherError IdentityHash) (account : AccountId)
    (fresh f : IdentityHash) (l : length fresh ≡ 32) where
  abbrev Next : (Action Contended GateError IdentityHash) → Type 0
  Next again = (c : Contended) → (again c).0 ≡ ok f → Settled account fresh f (again c).1

  -- the record that follows a decision
  recorded-Settled :
      (again : Action Contended GateError IdentityHash) (stored : Option IdentityHash)
      (action : IdentityReconcile) (c : Contended)
      → Next again
      → ((rows : List Row)
          → surviving (ok stored) fresh rows ≡ (if clears_mailbox action then [] else rows))
      → (record_identity (store_ports hash) account fresh stored again action c).0 ≡ ok f
      → Settled account fresh f
          (record_identity (store_ports hash) account fresh stored again action c).1
  recorded-Settled again stored action c next m h =
      go (reconcile_identity account fresh action stored (meets c)) refl h
    where
      go :
          (r : Result MailboxStoreError (Unit {0}) × Store)
          → reconcile_identity account fresh action stored (meets c) ≡ r
          → (continue (λ _. pure fresh) (after_race again) r.0 (left c r.1)).0 ≡ ok f
          → Settled account fresh f
              (continue (λ _. pure fresh) (after_race again) r.0 (left c r.1)).1
      go (ok _, s') e h =
          let (before, after, messages) =
            record_sound account fresh action stored (meets c) l (ap (λ p. p.0) e) in
          record {
            same = ground arith;
            recorded = subst (λ t. recorded_identity account t.1.db ≡ ok (some fresh)) e after;
            messages =
                subst
                  (λ t.
                    t.1.db.messages ≡ (if clears_mailbox action then [] else (meets c).db.messages))
                  e messages
                ∙ sym (m (meets c).db.messages)
                ∙ ap (λ r. surviving r fresh (meets c).db.messages) (sym before);
          }
      go (err identity_raced, s') e h = next (left c s') h
      go (err storage, s') e h = absurd (ground arith)
      go (err corrupted, s') e h = absurd (ground arith)
      go (err identity_changed, s') e h = absurd (ground arith)

  matched :
      (c : Contended)
      → recorded_identity account c.found.db ≡ ok (some fresh)
      → c.store.db ≡ c.found.db
      → f ≡ fresh
      → Settled account fresh f c
  unfolding surviving
  matched c r e h = record {
    same = h;
    recorded = ap (recorded_identity account) e ∙ r;
    messages = ground (arith, text_eq_iff fresh fresh);
  }

  act_on-Settled :
      (again : Action Contended GateError IdentityHash) (stored : Option IdentityHash)
      (c : Contended)
      → Next again
      → recorded_identity account c.found.db ≡ ok stored
      → c.store.db ≡ c.found.db
      → (act_on (store_ports hash) account fresh stored again (decide stored fresh) c).0 ≡ ok f
      → Settled account fresh f
          (act_on (store_ports hash) account fresh stored again (decide stored fresh) c).1
  unfolding decide surviving
  act_on-Settled again none c next r kept =
      λ h. recorded-Settled again none record_only c next (λ rows. refl) h
  act_on-Settled again (some x) c next r kept = elim (Bool-cases (hash_eq x fresh)) [
    | inl same ↦ rw same (λ h. matched c (ground (arith, text_eq_iff x fresh)) kept (ground arith))
    | inr other ↦ rw other (λ h.
        recorded-Settled again (some x) clear_mailbox_and_record c next (λ rows. rw other refl) h)
  ]

  gate_attempts-Settled :
      (attempts : ℕ) → Next (gate_attempts attempts (store_ports hash) account fresh)
  unfolding gate_attempts
  gate_attempts-Settled zero c h = absurd (ground arith)
  gate_attempts-Settled (suc attempts) c h =
      go (gate_attempts-Settled attempts) (load_identity account (meets c)) refl h
    where
      go :
          Next (gate_attempts attempts (store_ports hash) account fresh)
          → (r : Result MailboxStoreError (Option IdentityHash) × Store)
          → load_identity account (meets c) ≡ r
          → (continue
              (λ stored.
                act_on
                  (store_ports hash)
                  account
                  fresh
                  stored
                  (gate_attempts attempts (store_ports hash) account fresh)
                  (decide stored fresh))
              (λ e. raise (store e))
              r.0
              (left c r.1)).0
            ≡ ok f
          → Settled account fresh f
              (continue
                (λ stored.
                  act_on
                    (store_ports hash)
                    account
                    fresh
                    stored
                    (gate_attempts attempts (store_ports hash) account fresh)
                    (decide stored fresh))
                (λ e. raise (store e))
                r.0
                (left c r.1)).1
      go next (err x, s') e h = absurd (ground arith)
      go next (ok stored, s') e h =
          act_on-Settled (gate_attempts attempts (store_ports hash) account fresh) stored
            (left c s') next (load_sound account (meets c) stored (ap (λ t. t.0) e))
            (ap (λ t. t.1.db) (sym e) ∙ load_keeps account (meets c)) h

-- Over the mailbox store, whatever others do to it between the calls of the gate, and a hasher whose
-- hashes have 32 bytes: where the gate returns a hash, it is the hash of the subject without
-- surrounding whitespace, and it is the identity that the store records for the account when the last
-- call of the gate returns. The messages are then those which that call found, if the identity it
-- found was none or the same one, and none if it found another one.
pub run_identity_gate_lem :
    (hash : AccountId → Text → Result HasherError IdentityHash) (account : AccountId)
    (subject : Text) (f : IdentityHash) (c : Contended)
    → ((a : AccountId) (t : Text) (h : IdentityHash) → hash a t ≡ ok h → length h ≡ 32)
    → (run_identity_gate (store_ports hash) account subject c).0 ≡ ok f
    → let c' = (run_identity_gate (store_ports hash) account subject c).1 in
      (hash account (normalize_subject subject) ≡ ok f)
      × (recorded_identity account c'.store.db ≡ ok (some f))
      × (c'.store.db.messages
          ≡ surviving (recorded_identity account c'.found.db) f c'.found.db.messages)
unfolding run_identity_gate
run_identity_gate_lem hash account subject f c wide h =
    go (hash account (normalize_subject subject)) refl h
  where
    go :
        (r : Result HasherError IdentityHash)
        → hash account (normalize_subject subject) ≡ r
        → (after_hash (store_ports hash) account r c).0 ≡ ok f
        → let c' = (after_hash (store_ports hash) account r c).1 in
          (r ≡ ok f)
          × (recorded_identity account c'.store.db ≡ ok (some f))
          × (c'.store.db.messages
              ≡ surviving (recorded_identity account c'.found.db) f c'.found.db.messages)
    go (err e) p h = absurd (ground arith)
    go (ok fresh) p h =
        let settled =
          gate_attempts-Settled hash account fresh f
            (wide account (normalize_subject subject) fresh p) max_gate_attempts c h in
        (
          ap ok (sym settled.same),
          settled.recorded ∙ ap (λ x. ok (some x)) (sym settled.same),
          settled.messages
              ∙ ap
                  (λ x.
                    surviving
                      (recorded_identity account
                        (after_hash (store_ports hash) account (ok fresh) c).1.found.db)
                      x (after_hash (store_ports hash) account (ok fresh) c).1.found.db.messages)
                  (sym settled.same),
        )
