-- ===== src/Application/Sync/Flight.antt =====
-- The single flight of an account: refused while one is in the air, and given back on every path.
use tersa_app.Prelude.{
  ◌≡◌, refl, false, not, List, [], ◌∷◌, any, keep, if◌then◌else◌, arith, inl, inr, Bool-cases,
}
use tersa_app.Prelude.Result.{err}
use tersa_app.Prelude.Text.{text_eq, text_eq_refl}
use tersa_app.Domain.Mailbox.{AccountId}
use tersa_app.Application.Identity.{IdentityHash}
use tersa_app.Application.SyncPolicy.{SyncPolicy, failure, single_flight, no_progress}
use tersa_app.Application.Sync.{
  Ports, Coordinator, is_active, acquire, release, sync_recent, sync_with_flight,
}

keep-inactive :
    (account : AccountId) (accounts : List AccountId)
    → any (λ a. text_eq a account) accounts ≡ false
    → keep (λ a. not (text_eq a account)) accounts ≡ accounts
keep-inactive account [] h = refl
keep-inactive account (a ∷ accounts) h = ground (arith, keep-inactive account accounts)

-- A sync leaves the set of active accounts as it was: whatever the ports answer, the flight that
-- it took is given back, and a flight of another task is left alone. It fails with the
-- single-flight error and does nothing when the account is active or the lock is poisoned, and
-- otherwise answers what the sync under the flight answers.
pub sync_recent_lem :
    {W : Type 0} (ports : Ports W) (account : AccountId) (policy : SyncPolicy)
    (fence : IdentityHash) (c : Coordinator W)
    → sync_recent ports account policy fence c ≡ (
        if c.poisoned
        then (err (failure single_flight no_progress), c)
        else if is_active account c
        then (err (failure single_flight no_progress), c)
        else (let (r, w) = sync_with_flight ports account policy fence c.world in
            (r, record c { world = w })))
unfolding sync_recent acquire release
sync_recent_lem ports account policy fence c = elim (Bool-cases c.poisoned) [
  | inl poisoned ↦ rw poisoned refl
  | inr healthy ↦ rw healthy (elim (Bool-cases (is_active account c)) [
    | inl active ↦ rw active refl
    | inr idle ↦ rw (idle, text_eq_refl account, keep-inactive account c.active_accounts idle) refl
  ])
]
