-- ===== src/Application/Identity.antt =====
-- crates/application/src/identity.rs: the identity hash and the decision of the identity gate.
use tersa_app.Prelude.{ℕ, Bool, Option, none, some, List, if◌then◌else◌}
use tersa_app.Prelude.Text.{Text, text_eq, trim}
use tersa_app.Application.Mailbox.{MailboxStoreError}

-- `[u8; 32]`, compared in constant time
abbrev pub IdentityHash : Type 0
IdentityHash = List ℕ

-- `impl PartialEq for IdentityHash`
abbrev pub hash_eq : IdentityHash → IdentityHash → Bool
hash_eq = text_eq

pub data HasherError : Type 0 where
  unavailable : HasherError

pub data GateError : Type 0 where
  hasher : HasherError → GateError
  store : MailboxStoreError → GateError

pub data IdentityReconcile : Type 0 where
  record_only : IdentityReconcile
  clear_mailbox_and_record : IdentityReconcile

pub data IdentityDecision : Type 0 where
  first_record : IdentityDecision
  match : IdentityDecision
  clear_and_record : IdentityDecision

unfoldable pub decide : Option IdentityHash → IdentityHash → IdentityDecision
decide none fresh = first_record
decide (some stored) fresh = if hash_eq stored fresh then match else clear_and_record

-- the subject without surrounding whitespace
unfoldable pub normalize_subject : Text → Text
normalize_subject subject = trim subject
