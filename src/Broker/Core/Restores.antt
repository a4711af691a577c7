-- ===== src/Broker/Core/Restores.antt =====
-- What the operations of the broker leave of its own state: the permits always, the registry but for
-- the claimed session.
use tersa_app.Prelude.{◌≡◌, refl, ap, sym, ◌∙◌, subst, false, Option, arith}
use tersa_app.Prelude.Result.{Result, ok, err}
use tersa_app.Prelude.Action.{lift, raise, on_result-Ends, continue, ◌>>=◌}
use tersa_app.Prelude.Text.{Text}
use tersa_app.Application.OAuth.Urls.{Url}
use tersa_app.Application.OAuth.{AuthorizationSession}
use tersa_app.Application.Token.{TokenSuccess, TokenScopeOutcome, granted, under_scoped}
use tersa_app.Broker.{BrokerError, session_unknown}
use tersa_app.Broker.Handles.{parse_handle, new_subject}
use tersa_app.Broker.Permits.{SubjectPermits}
use tersa_app.Broker.Registry.{SessionRegistry, claim, without}
use tersa_app.Broker.Registry.Allocation.{without-unpending, unpending-find}
use tersa_app.Broker.Core.{Ports, BrokerConfig, BrokerCore, on_world}
use tersa_app.Broker.Core.Guarded.{IsHeld, with_permit-restores, for_subject-restores}
use tersa_app.Broker.Core.Complete.{
  complete_subject, complete_granted, complete_outcome, parsed_callback, answer_callback,
  finish_session, exchange_code, exchange_and_complete, claim_session, complete_claimed,
  complete_authorization,
}
use tersa_app.Broker.Core.Refresh.{refresh_access_token}
use tersa_app.Broker.Core.Revoke.{revoke_provider_grant, delete_stored_tokens}

module _ {W : Type 0} (ports : Ports W) (parse : Text → Option Url) (config : BrokerConfig)
    (permits : SubjectPermits) (held : IsHeld permits) where
  -- the state but for the world
  abbrev Kept : {A : Type 0} → SessionRegistry → Result BrokerError A → BrokerCore W → Type 0
  Kept registry r s' = (s'.permits ≡ permits) × (s'.registry ≡ registry)

  complete_subject-Kept :
      (registry : SessionRegistry) (success : TokenSuccess) (v : Result BrokerError Text)
      (s : BrokerCore W)
      → Kept registry (complete_subject ports success v s).0 s
      → Kept registry (complete_subject ports success v s).0 (complete_subject ports success v s).1
  complete_subject-Kept registry success (err e) s k = k
  complete_subject-Kept registry success (ok subject) s (p, q) =
      let (p', q') =
        with_permit-restores (complete_granted ports subject success) subject s
          (subst IsHeld (sym p) held) in
      (p' ∙ p, q' ∙ q)

  complete_outcome-Kept :
      (registry : SessionRegistry) (outcome : TokenScopeOutcome) (s : BrokerCore W)
      → (s.permits ≡ permits) × (s.registry ≡ registry)
      → let m = complete_outcome ports outcome s in Kept registry m.0 m.1
  unfolding complete_outcome
  complete_outcome-Kept registry (granted success) s k =
      complete_subject-Kept registry success (new_subject success.subject) s k
  complete_outcome-Kept registry (under_scoped access_token rotated) s k = k

  complete_claimed-Kept :
      (registry : SessionRegistry) (callback_url : Text) (session : AuthorizationSession)
      (s : BrokerCore W)
      → (s.permits ≡ permits) × (s.registry ≡ registry)
      → let m = complete_claimed ports parse config callback_url session s in Kept registry m.0 m.1
  unfolding complete_claimed
  complete_claimed-Kept registry callback_url session s k =
      on_result-Ends (lift (parsed_callback parse config callback_url session))
        (answer_callback ports session) raise s (Kept registry) (Kept registry) k
        (λ (token_config, callback) s1 k1.
          on_result-Ends (on_world (finish_session ports session callback))
            (exchange_and_complete ports token_config) raise s1 (Kept registry) (Kept registry) k1
            (λ grant s2 k2.
              on_result-Ends (on_world (exchange_code ports grant token_config))
                (complete_outcome ports) raise s2 (Kept registry) (Kept registry) k2
                (λ outcome s3 k3. complete_outcome-Kept registry outcome s3 k3) (λ e s3 k3. k3))
            (λ e s2 k2. k2))
        (λ e s1 k1. k1)

  complete_parsed-Kept :
      (handle callback_url : Text) (s : BrokerCore W)
      → s.permits ≡ permits
      → let m =
          (claim_session ports handle >>= complete_claimed ports parse config callback_url) s in
        Kept (claim handle s.registry).1 m.0 m.1
  unfolding claim_session
  complete_parsed-Kept handle callback_url s p =
      let registry = (claim handle s.registry).1 in
      on_result-Ends (claim_session ports handle) (complete_claimed ports parse config callback_url)
        raise s (Kept registry) (Kept registry) (p, refl)
        (λ session s1 k1. complete_claimed-Kept registry callback_url session s1 k1) (λ e s1 k1. k1)

  complete_authorization-permits :
      (session_handle callback_url : Text) (s : BrokerCore W)
      → s.permits ≡ permits
      → (complete_authorization ports parse config session_handle callback_url s).1.permits
        ≡ permits
  unfolding complete_authorization
  complete_authorization-permits session_handle callback_url s p = go (parse_handle session_handle)
    where
      go :
          (v : Result BrokerError Text)
          → (continue {S = BrokerCore W} {E = BrokerError}
              (λ handle.
                claim_session ports handle >>= complete_claimed ports parse config callback_url)
              raise
              v
              s).1.permits
            ≡ permits
      go (err e) = p
      go (ok handle) = (complete_parsed-Kept handle callback_url s p).0

-- From permits for at most 32 distinct subjects, each operation of the broker that takes a permit
-- gives it back on every path, whatever its ports answer.
pub permits_lem :
    {W : Type 0} (ports : Ports W) (parse : Text → Option Url) (config : BrokerConfig)
    (session_handle callback_url account_subject : Text) (s : BrokerCore W)
    → IsHeld s.permits
    → ((complete_authorization ports parse config session_handle callback_url s).1.permits
        ≡ s.permits)
      × ((refresh_access_token ports parse config account_subject s).1.permits ≡ s.permits)
      × ((revoke_provider_grant ports account_subject s).1.permits ≡ s.permits)
      × ((delete_stored_tokens ports account_subject s).1.permits ≡ s.permits)
unfolding refresh_access_token revoke_provider_grant delete_stored_tokens
permits_lem ports parse config session_handle callback_url account_subject s held = (
  complete_authorization-permits ports parse config s.permits held session_handle callback_url s
      refl,
  (for_subject-restores _ account_subject s held).0,
  (for_subject-restores _ account_subject s held).0,
  (for_subject-restores _ account_subject s held).0,
)

claim_claimed :
    (handle : Text) (r : SessionRegistry)
    → r.poisoned ≡ false
    → (claim handle (claim handle r).1).0 ≡ err session_unknown
unfolding claim
claim_claimed handle r healthy =
    ground (
      arith,
      unpending-find handle (without handle r.sessions) (without-unpending handle r.sessions),
    )

module _ {W : Type 0} (ports : Ports W) (parse : Text → Option Url) (config : BrokerConfig)
    (session_handle handle : Text) where
  -- a completion, once its handle is parsed
  complete_parsed_lem :
      (callback_url : Text) (s : BrokerCore W)
      → parse_handle session_handle ≡ ok handle
      → complete_authorization ports parse config session_handle callback_url s
        ≡ (claim_session ports handle >>= complete_claimed ports parse config callback_url) s
  unfolding complete_authorization
  complete_parsed_lem callback_url s parsed =
      ap
        (λ v.
          continue {S = BrokerCore W} {E = BrokerError}
            (λ h. claim_session ports h >>= complete_claimed ports parse config callback_url) raise
            v s)
        parsed

  unclaimed_lem :
      (callback_url : Text) (s : BrokerCore W)
      → (claim handle s.registry).0 ≡ err session_unknown
      → let m =
          (claim_session ports handle >>= complete_claimed ports parse config callback_url) s in
        (m.0 ≡ err session_unknown) × (m.1.world ≡ s.world)
  unfolding claim_session
  unclaimed_lem callback_url s h = rw h (refl, refl)

-- After a completion for a well-formed handle, whatever it answered, another completion for that
-- handle, with any callback, finds no session and asks nothing of the ports: the registry was
-- healthy, and the held permits were at most 32 for distinct subjects.
pub complete_authorization_replay :
    {W : Type 0} (ports : Ports W) (parse : Text → Option Url) (config : BrokerConfig)
    (session_handle first second handle : Text) (s : BrokerCore W)
    → IsHeld s.permits
    → s.registry.poisoned ≡ false
    → parse_handle session_handle ≡ ok handle
    → let s' = (complete_authorization ports parse config session_handle first s).1 in
      let m = complete_authorization ports parse config session_handle second s' in
      (m.0 ≡ err session_unknown) × (m.1.world ≡ s'.world)
complete_authorization_replay ports parse config session_handle first second handle s held healthy
      parsed =
    let s' = (complete_authorization ports parse config session_handle first s).1 in
    let kept = (complete_parsed-Kept ports parse config s.permits held handle first s refl).1 in
    let registry =
      ap (λ m. m.1.registry)
        (complete_parsed_lem ports parse config session_handle handle first s parsed)
      ∙ kept in
    rw (complete_parsed_lem ports parse config session_handle handle second s' parsed) (
      unclaimed_lem ports parse config session_handle handle second s'
        (ap (λ r. (claim handle r).0) registry ∙ claim_claimed handle s.registry healthy))
