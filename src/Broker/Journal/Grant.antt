-- ===== src/Broker/Journal/Grant.antt =====
-- What the completion of a granted authorization asks of the store and of the revocation endpoint.
use tersa_app.Prelude.{
  ap, sym, subst, ◌≡◌, refl, true, Option, some, List, ◌∷◌, arith, inl, inr, Option-cases,
}
use tersa_app.Prelude.Result.{Result, ok, err, map_err, map_err-ok}
use tersa_app.Prelude.Action.{◌>>=◌, pure, raise, on_result, on_result-Ends}
use tersa_app.Prelude.Text.{Text}
use tersa_app.Application.Token.{TokenSuccess, validate_fresh}
use tersa_app.Broker.{BrokerError, identity_unverified, persistence_failed}
use tersa_app.Broker.Core.{
  Ports, BrokerToken, is_well_shaped, broker_token, or_error, RefreshTokenStoreError,
}
use tersa_app.Broker.Core.Complete.{
  snapshot_of, revoke_handle, or_clean_up, granted_refresh_token, store_grant, save_grant,
  save_token, issue_token, require_fresh, complete_granted,
}
use tersa_app.Broker.Journal.{Event, stored, store_failed, loaded, load_failed, journal, load_event}
use tersa_app.Broker.Journal.CleanUp.{CleanUp, Checked, or_clean_up-Checked, Saved, store-Saved}

-- the journal of the end of a completion that starts in a world at `past`, by its result; the clocks
-- are read in the world that the load leaves
pub data GrantTrace {W : Type 0} (ports : Ports W) (subject : Text) (success : TokenSuccess)
    (world : W) (past : List Event) : Result BrokerError BrokerToken → List Event → Type 0 where
  unread :
      GrantTrace ports subject success world past
        (err persistence_failed)
        (load_failed subject ∷ past)
  rejected :
      (found : Option Text) (e : BrokerError) (log : List Event)
      → CleanUp (revoke_handle success) (loaded subject found ∷ past) found log
      → GrantTrace ports subject success world past (err e) log
  unstored :
      (found : Option Text) (e : BrokerError) (log : List Event)
      → CleanUp
          (revoke_handle success)
          (store_failed subject ∷ loaded subject found ∷ past)
          found
          log
      → GrantTrace ports subject success world past (err e) log
  completed :
      (found : Option Text) (token : BrokerToken) (refresh_token : Text)
      → (ports.load subject world).0 ≡ ok found
      → success.rotated_refresh_token ≡ some refresh_token
      → is_well_shaped refresh_token ≡ true
      → broker_token success (ports.clock (ports.load subject world).1) ≡ ok token
      → validate_fresh success.identity_expiry (ports.wall_clock (ports.load subject world).1) 120
        ≡ ok tt
      → GrantTrace ports subject success world past
          (ok token)
          (stored subject refresh_token ∷ loaded subject found ∷ past)

module _ {W : Type 0} (ports : Ports W) (success : TokenSuccess) where
  granted_refresh_token_lem :
      (refresh_token : Text)
      → granted_refresh_token success ≡ ok refresh_token
      → (success.rotated_refresh_token ≡ some refresh_token) × (is_well_shaped refresh_token ≡ true)
  unfolding granted_refresh_token
  granted_refresh_token_lem refresh_token h = elim (Option-cases success.rotated_refresh_token) [
    | inl absent ↦ ground arith
    | inr (r, present) ↦ ground arith
  ]

  module _ (subject : Text) (world : W) (past : List Event) (found : Option Text)
      (read : (ports.load subject world).0 ≡ ok found) where
    abbrev after : W
    after = (ports.load subject world).1

    save_grant-GrantTrace :
        (token : BrokerToken) (refresh_token : Text) (s : W × List Event)
        → success.rotated_refresh_token ≡ some refresh_token
        → is_well_shaped refresh_token ≡ true
        → broker_token success (ports.clock after) ≡ ok token
        → validate_fresh success.identity_expiry (ports.wall_clock after) 120 ≡ ok tt
        → s.1 ≡ loaded subject found ∷ past
        → let m =
            save_grant (journal ports) subject success (snapshot_of found) token refresh_token s in
          GrantTrace ports subject success world past m.0 m.1.1
    save_grant-GrantTrace token refresh_token s present shaped issued fresh h =
        on_result-Ends
          (on_result ((journal ports).store subject refresh_token) pure
            (λ _. or_clean_up (journal ports) (snapshot_of found) success (err persistence_failed)))
          (λ _. pure token) raise s
          (Saved ports success subject refresh_token (loaded subject found ∷ past) found)
          (λ r s'. GrantTrace ports subject success world past r s'.1)
          (store-Saved ports success subject refresh_token (loaded subject found ∷ past) found s h)
          (λ _ s' saved.
            subst (GrantTrace ports subject success world past (ok token)) (sym saved)
              (completed found token refresh_token read present shaped issued fresh))
          (λ e s' c. unstored found e s'.1 c)

    store_grant-GrantTrace :
        (let m =
            store_grant
              (journal ports)
              subject
              success
              (snapshot_of found)
              (after, loaded subject found ∷ past) in
          GrantTrace ports subject success world past m.0 m.1.1)
    unfolding store_grant
    store_grant-GrantTrace =
        let t : W × List Event = (after, loaded subject found ∷ past) in
        let snapshot = snapshot_of found in
        let save_token' = save_token (journal ports) subject success snapshot in
        let issue = issue_token (journal ports) snapshot success in
        on_result-Ends (require_fresh (journal ports) snapshot success) (λ _. issue >>= save_token')
          raise t
          (Checked ports success t found (
            map_err (λ _. identity_unverified)
              (validate_fresh success.identity_expiry (ports.wall_clock after) 120)))
          (λ r s'. GrantTrace ports subject success world past r s'.1)
          (or_clean_up-Checked ports success t found _ t refl)
          (λ _ s1 fresh.
            on_result-Ends issue save_token' raise s1
              (Checked ports success t found (broker_token success (ports.clock s1.0)))
              (λ r s'. GrantTrace ports subject success world past r s'.1)
              (or_clean_up-Checked ports success t found _ s1 fresh.1)
              (λ token s2 issued.
                on_result-Ends
                  (or_clean_up (journal ports) snapshot success (granted_refresh_token success))
                  (save_grant (journal ports) subject success snapshot token) raise s2
                  (Checked ports success t found (granted_refresh_token success))
                  (λ r s'. GrantTrace ports subject success world past r s'.1)
                  (or_clean_up-Checked ports success t found _ s2 issued.1)
                  (λ refresh_token s3 has.
                    let (present, shaped) = granted_refresh_token_lem refresh_token has.0 in
                    save_grant-GrantTrace token refresh_token s3 present shaped
                      (subst (λ s. broker_token success (ports.clock s.0) ≡ ok token) fresh.1
                        issued.0)
                      (map_err-ok _ _ _ fresh.0) (ap (λ s. s.1) has.1))
                  (λ e s' c. rejected found e s'.1 c))
              (λ e s' c. rejected found e s'.1 c))
          (λ e s' c. rejected found e s'.1 c)

  -- how the load ends, world and all
  abbrev ReadIn : Text → W × List Event → Result BrokerError (Option Text) → W × List Event → Type 0
  ReadIn subject s (ok found) s' =
      ((ports.load subject s.0).0 ≡ ok found)
      × (s' ≡ ((ports.load subject s.0).1, loaded subject found ∷ s.1))
  ReadIn subject s (err e) s' = (e ≡ persistence_failed) × (s'.1 ≡ load_failed subject ∷ s.1)

  load-ReadIn :
      (subject : Text) (s : W × List Event)
      → let m = or_error (λ _. persistence_failed) ((journal ports).load subject) s in
        ReadIn subject s m.0 m.1
  load-ReadIn subject s = go (ports.load subject s.0).0 refl
    where
      go :
          (r : Result RefreshTokenStoreError (Option Text))
          → (ports.load subject s.0).0 ≡ r
          → ReadIn subject s
              (map_err (λ _. persistence_failed) r)
              ((ports.load subject s.0).1, load_event subject r ∷ s.1)
      go (ok found) h = (h, refl)
      go (err _) h = (refl, refl)

  pub complete_granted-GrantTrace :
      (subject : Text) (s : W × List Event)
      → let m = complete_granted (journal ports) subject success s in
        GrantTrace ports subject success s.0 s.1 m.0 m.1.1
  unfolding complete_granted
  complete_granted-GrantTrace subject s =
      on_result-Ends (or_error (λ _. persistence_failed) ((journal ports).load subject))
        (λ found. store_grant (journal ports) subject success (snapshot_of found)) raise s
        (ReadIn subject s) (λ r s'. GrantTrace ports subject success s.0 s.1 r s'.1)
        (load-ReadIn subject s)
        (λ found s' (read, left).
          subst
            (λ x.
              let m = store_grant (journal ports) subject success (snapshot_of found) x in
              GrantTrace ports subject success s.0 s.1 m.0 m.1.1)
            (sym left) (store_grant-GrantTrace subject s.0 s.1 found read))
        (λ e s' (h, log).
          subst (λ x. GrantTrace ports subject success s.0 s.1 (err x) s'.1) (sym h)
            (subst (GrantTrace ports subject success s.0 s.1 (err persistence_failed)) (sym log)
              unread))
