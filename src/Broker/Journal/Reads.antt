-- ===== src/Broker/Journal/Reads.antt =====
-- How a load of the stored refresh token ends, in the journal.
use tersa_app.Prelude.{◌≡◌, refl, Option, List, ◌∷◌}
use tersa_app.Prelude.Result.{Result, ok, err, map_err}
use tersa_app.Prelude.Text.{Text}
use tersa_app.Broker.{BrokerError, persistence_failed}
use tersa_app.Broker.Core.{Ports, RefreshTokenStoreError, or_error}
use tersa_app.Broker.Journal.{Event, loaded, load_failed, journal, load_event}

module _ {W : Type 0} where
  -- how the snapshot ends
  abbrev pub Read : Text → List Event → Result BrokerError (Option Text) → W × List Event → Type 0
  Read subject past (ok found) s' = s'.1 ≡ loaded subject found ∷ past
  Read subject past (err e) s' = (e ≡ persistence_failed) × (s'.1 ≡ load_failed subject ∷ past)

module _ {W : Type 0} (ports : Ports W) where
  pub read_lem :
      (subject : Text) (s : W × List Event)
      → let m = or_error (λ _. persistence_failed) ((journal ports).load subject) s in
        Read subject s.1 m.0 m.1
  read_lem subject s = go (ports.load subject s.0).0 (ports.load subject s.0).1
    where
      go :
          (r : Result RefreshTokenStoreError (Option Text)) (w : W)
          → Read subject s.1 (map_err (λ _. persistence_failed) r) (w, load_event subject r ∷ s.1)
      go (ok _) w = refl
      go (err _) w = (refl, refl)
