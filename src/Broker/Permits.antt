-- ===== src/Broker/Permits.antt =====
-- adapters/token-broker-core/src/permits.rs: the subjects with a mutation in flight.
pub mod Flights
use tersa_app.Prelude.{ℕ, Bool, not, ◌||◌, List, [], ◌∷◌, any, keep, length, leb, if◌then◌else◌}
use tersa_app.Prelude.Result.{Result, ok, err}
use tersa_app.Prelude.Text.{Text, text_eq}
use tersa_app.Broker.{BrokerError, busy, unavailable}

abbrev pub max_subject_permits : ℕ
max_subject_permits = 32

-- the held subjects, behind a lock
pub record SubjectPermits : Type 0 where
  pub held : List Text
  pub poisoned : Bool

unfoldable pub is_held : Text → SubjectPermits → Bool
is_held subject p = any (λ t. text_eq t subject) p.held

-- `SubjectPermits::claim`
unfoldable pub claim_permit : Text → SubjectPermits → Result BrokerError (Unit {0}) × SubjectPermits
unfolding is_held
claim_permit subject p =
    if p.poisoned
    then (err unavailable, p)
    else if is_held subject p || leb max_subject_permits (length p.held)
    then (err busy, p)
    else (ok tt, record p { held = subject ∷ p.held })

-- `impl Drop for SubjectPermit`, which a poisoned lock does not stop
unfoldable pub drop_permit : Text → SubjectPermits → SubjectPermits
drop_permit subject p = record p { held = keep (λ t. not (text_eq t subject)) p.held }
