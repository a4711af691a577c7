-- ===== src/Broker/Journal.antt =====
-- adapters/token-broker-core/src/broker.rs: a journal of what a broker operation asks of its ports,
-- the newest event first, kept beside any world.
pub mod Reads
pub mod CleanUp
pub mod Grant
pub mod Outcome
pub mod Answers
pub mod Refresh
pub mod Revoke
pub mod Complete
use tersa_app.Prelude.{ℕ, ◌≡◌, Option, none, some, List, [], ◌∷◌}
use tersa_app.Prelude.Result.{Result, ok, err}
use tersa_app.Prelude.Action.{Action}
use tersa_app.Prelude.Text.{Text}
use tersa_app.Application.Token.{TokenTransportError, TokenResponse}
use tersa_app.Broker.Core.{Ports, RefreshTokenStoreError}

pub data Event : Type 0 where
  exchanged : Result TokenTransportError TokenResponse → Event
  refreshed : Result TokenTransportError TokenResponse → Event
  revoked : Text → Result TokenTransportError (Unit {0}) → Event
  stored : Text → Text → Event
  store_failed : Text → Event
  loaded : Text → Option Text → Event
  load_failed : Text → Event
  deleted : Text → Event
  delete_failed : Text → Event

abbrev store_event : Text → Text → Result RefreshTokenStoreError (Unit {0}) → Event
store_event subject token (ok _) = stored subject token
store_event subject token (err _) = store_failed subject

abbrev load_event : Text → Result RefreshTokenStoreError (Option Text) → Event
load_event subject (ok found) = loaded subject found
load_event subject (err _) = load_failed subject

abbrev delete_event : Text → Result RefreshTokenStoreError (Unit {0}) → Event
delete_event subject (ok _) = deleted subject
delete_event subject (err _) = delete_failed subject

module _ {W : Type 0} where
  abbrev pub logged :
      {E A : Type 0} → Action W E A → (Result E A → Event) → Action (W × List Event) E A
  logged m event s = let (r, w) = m s.0 in (r, (w, event r ∷ s.1))

  -- the ports, with their journal
  abbrev pub journal : Ports W → Ports (W × List Event)
  journal ports = record {
    exchange = λ parameters. logged (ports.exchange parameters) exchanged;
    refresh = λ parameters. logged (ports.refresh parameters) refreshed;
    revoke = λ token. logged (ports.revoke token) (revoked token);
    store = λ subject token. logged (ports.store subject token) (store_event subject token);
    load = λ subject. logged (ports.load subject) (load_event subject);
    delete = λ subject. logged (ports.delete subject) (delete_event subject);
    clock = λ s. ports.clock s.0;
    wall_clock = λ s. ports.wall_clock s.0;
  }
