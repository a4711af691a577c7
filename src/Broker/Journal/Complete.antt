-- ===== src/Broker/Journal/Complete.antt =====
-- The journal of `complete_authorization`.
use tersa_app.Prelude.{◌≡◌, refl, sym, subst, Option, List, ◌∷◌}
use tersa_app.Prelude.Result.{Result, ok, err, map_err}
use tersa_app.Prelude.Action.{on_result-Ends, lift, raise, ◌>>=◌}
use tersa_app.Prelude.Text.{Text}
use tersa_app.Application.OAuth.Urls.{Url}
use tersa_app.Application.OAuth.{AuthorizationSession, AuthorizationGrant}
use tersa_app.Application.Token.{
  TokenSuccess, TokenClientConfig, TokenScopeOutcome, granted, under_scoped, TokenError,
  TokenResponse, TokenTransportError, exchange_parameters, exchange_grant_with_scope_outcome,
  scope_outcome_from_response,
}
use tersa_app.Broker.{BrokerError, identity_unverified, insufficient_scope}
use tersa_app.Broker.Handles.{new_subject, parse_handle}
use tersa_app.Broker.Core.{Ports, BrokerConfig, BrokerCore, BrokerToken, on_world, map_token_error}
use tersa_app.Broker.Core.Guarded.{with_permit-Ends}
use tersa_app.Broker.Core.Complete.{
  complete_subject, parsed_callback, finish_session, exchange_code, exchange_and_complete,
  answer_callback, claim_session, complete_granted, complete_outcome, complete_claimed,
  complete_authorization,
}
use tersa_app.Broker.Journal.{Event, exchanged, journal}
use tersa_app.Broker.Journal.Grant.{GrantTrace, complete_granted-GrantTrace}

-- the journal of a completion that starts in a world at `past`, by its result: the exchange is the
-- first call, and what follows is for the response it gave, read at the clock it left
pub data CompletionTrace {W : Type 0} (ports : Ports W) (world : W) (past : List Event)
    : Result BrokerError BrokerToken → List Event → Type 0 where
  not_exchanged : (e : BrokerError) → CompletionTrace ports world past (err e) past
  refused :
      (parameters : List (Text × Text)) (e : BrokerError)
      → CompletionTrace ports world past
          (err e)
          (exchanged (ports.exchange parameters world).0 ∷ past)
  answered :
      (parameters : List (Text × Text)) (config : TokenClientConfig) (response : TokenResponse)
      (subject : Text) (success : TokenSuccess) (r : Result BrokerError BrokerToken)
      (log : List Event)
      → (ports.exchange parameters world).0 ≡ ok response
      → scope_outcome_from_response response
          (ports.clock (ports.exchange parameters world).1)
          config
        ≡ ok (granted success)
      → new_subject success.subject ≡ ok subject
      → GrantTrace ports subject success
          (ports.exchange parameters world).1
          (exchanged (ports.exchange parameters world).0 ∷ past)
          r
          log
      → CompletionTrace ports world past r log

module _ {W : Type 0} (ports : Ports W) (world : W) (past : List Event)
    (parameters : List (Text × Text)) (config : TokenClientConfig) where
  -- the state that the exchange leaves
  abbrev exchanging : W × List Event
  exchanging = let (reply, left) = ports.exchange parameters world in (left, exchanged reply ∷ past)

  refused-CompletionTrace :
      (e : BrokerError) (s : BrokerCore (W × List Event))
      → s.world ≡ exchanging
      → CompletionTrace ports world past (err e) s.world.1
  refused-CompletionTrace e s h =
      subst (λ w. CompletionTrace ports world past (err e) w.1) (sym h) (refused parameters e)

  -- the outcome is that of the response of the exchange
  abbrev IsReplied : TokenScopeOutcome → Type 0
  IsReplied outcome =
      (response : TokenResponse) × ((ports.exchange parameters world).0 ≡ ok response)
      × (scope_outcome_from_response response (ports.clock (ports.exchange parameters world).1)
            config
          ≡ ok outcome)

  complete_subject-CompletionTrace :
      (success : TokenSuccess) (r : Result BrokerError Text) (s : BrokerCore (W × List Event))
      → IsReplied (granted success)
      → new_subject success.subject ≡ r
      → s.world ≡ exchanging
      → let m = complete_subject (journal ports) success r s in
        CompletionTrace ports world past m.0 m.1.world.1
  complete_subject-CompletionTrace success (err e) s replied v h =
      refused-CompletionTrace identity_unverified s h
  complete_subject-CompletionTrace success (ok subject) s (response, replied, outcome) v h =
      with_permit-Ends (complete_granted (journal ports) subject success) subject s
        (λ r w. CompletionTrace ports world past r w.1) (λ e _. refused-CompletionTrace e s h)
        (subst
          (λ w.
            let m = complete_granted (journal ports) subject success w in
            CompletionTrace ports world past m.0 m.1.1)
          (sym h)
          (let m = complete_granted (journal ports) subject success exchanging in
            answered parameters config response subject success m.0 m.1.1 replied outcome v
              (complete_granted-GrantTrace ports success subject exchanging)))

  complete_outcome-CompletionTrace :
      (outcome : TokenScopeOutcome) (s : BrokerCore (W × List Event))
      → IsReplied outcome
      → s.world ≡ exchanging
      → let m = complete_outcome (journal ports) outcome s in
        CompletionTrace ports world past m.0 m.1.world.1
  unfolding complete_outcome
  complete_outcome-CompletionTrace (granted success) s replied h =
      complete_subject-CompletionTrace success (new_subject success.subject) s replied refl h
  complete_outcome-CompletionTrace (under_scoped access_token rotated) s replied h =
      refused-CompletionTrace insufficient_scope s h

-- how the exchange ends, from the world `w`
abbrev Replied :
    {W : Type 0}
    → Ports W
    → W × List Event
    → List (Text × Text)
    → TokenClientConfig
    → Result BrokerError TokenScopeOutcome
    → W × List Event
    → Type 0
Replied ports w parameters config (ok outcome) w' =
    IsReplied ports w.0 w.1 parameters config outcome
    × (w' ≡ exchanging ports w.0 w.1 parameters config)
Replied ports w parameters config (err e) w' = w' ≡ exchanging ports w.0 w.1 parameters config

module _ {W : Type 0} (ports : Ports W) (grant : AuthorizationGrant) (config : TokenClientConfig)
    (w : W × List Event) where
  outcome-Replied :
      (r : Result TokenError TokenScopeOutcome) (response : TokenResponse)
      → (ports.exchange (exchange_parameters grant config) w.0).0 ≡ ok response
      → scope_outcome_from_response response
          (ports.clock (ports.exchange (exchange_parameters grant config) w.0).1)
          config
        ≡ r
      → Replied ports w
          (exchange_parameters grant config)
          config
          (map_err map_token_error r)
          (exchanging ports w.0 w.1 (exchange_parameters grant config) config)
  outcome-Replied (ok outcome) response replied h = ((response, replied, h), refl)
  outcome-Replied (err e) response replied h = refl

  reply-Replied :
      (reply : Result TokenTransportError TokenResponse)
      → (ports.exchange (exchange_parameters grant config) w.0).0 ≡ reply
      → Replied ports w
          (exchange_parameters grant config)
          config
          (map_err map_token_error (
            exchange_grant_with_scope_outcome grant config
              (λ _. reply)
              (ports.clock (ports.exchange (exchange_parameters grant config) w.0).1)))
          (exchanging ports w.0 w.1 (exchange_parameters grant config) config)
  unfolding exchange_grant_with_scope_outcome
  reply-Replied (err e) h = refl
  reply-Replied (ok response) h =
      outcome-Replied
        (scope_outcome_from_response response
          (ports.clock (ports.exchange (exchange_parameters grant config) w.0).1) config)
        response h refl

  exchange_code-Replied :
      (let m = exchange_code (journal ports) grant config w in
        Replied ports w (exchange_parameters grant config) config m.0 m.1)
  unfolding exchange_code
  exchange_code-Replied =
      reply-Replied (ports.exchange (exchange_parameters grant config) w.0).0 refl

module _ {W : Type 0} (ports : Ports W) where
  -- how a part ends that asks for nothing
  abbrev Quiet :
      {A : Type 0} → W × List Event → Result BrokerError A → BrokerCore (W × List Event) → Type 0
  Quiet w r s' = s'.world ≡ w

  quiet-CompletionTrace :
      (e : BrokerError) (w : W × List Event) (s : BrokerCore (W × List Event))
      → s.world ≡ w
      → CompletionTrace ports w.0 w.1 (err e) s.world.1
  quiet-CompletionTrace e w s h =
      subst (λ v. CompletionTrace ports w.0 w.1 (err e) v.1) (sym h) (not_exchanged e)

  answer_callback-CompletionTrace :
      (session : AuthorizationSession) (token_config : TokenClientConfig) (callback : Url)
      (w : W × List Event) (s : BrokerCore (W × List Event))
      → s.world ≡ w
      → let m = answer_callback (journal ports) session (token_config, callback) s in
        CompletionTrace ports w.0 w.1 m.0 m.1.world.1
  unfolding finish_session
  answer_callback-CompletionTrace session token_config callback w s h =
      on_result-Ends (on_world (finish_session (journal ports) session callback))
        (exchange_and_complete (journal ports) token_config) raise s (Quiet w)
        (λ r s'. CompletionTrace ports w.0 w.1 r s'.world.1) h
        (λ grant s1 h1.
          let parameters = exchange_parameters grant token_config in
          on_result-Ends (on_world (exchange_code (journal ports) grant token_config))
            (complete_outcome (journal ports)) raise s1
            (λ r s'. Replied ports w parameters token_config r s'.world)
            (λ r s'. CompletionTrace ports w.0 w.1 r s'.world.1)
            (subst
              (λ v.
                let m = exchange_code (journal ports) grant token_config v in
                Replied ports w parameters token_config m.0 m.1)
              (sym h1) (exchange_code-Replied ports grant token_config w))
            (λ outcome s2 (replied, h2).
              complete_outcome-CompletionTrace ports w.0 w.1 parameters token_config outcome s2
                replied h2)
            (λ e s2 h2. refused-CompletionTrace ports w.0 w.1 parameters token_config e s2 h2))
        (λ e s1 h1. quiet-CompletionTrace e w s1 h1)

  complete_claimed-CompletionTrace :
      (parse : Text → Option Url) (config : BrokerConfig) (callback_url : Text)
      (session : AuthorizationSession) (w : W × List Event) (s : BrokerCore (W × List Event))
      → s.world ≡ w
      → let m = complete_claimed (journal ports) parse config callback_url session s in
        CompletionTrace ports w.0 w.1 m.0 m.1.world.1
  unfolding complete_claimed
  complete_claimed-CompletionTrace parse config callback_url session w s h =
      on_result-Ends (lift (parsed_callback parse config callback_url session))
        (answer_callback (journal ports) session) raise s (Quiet w)
        (λ r s'. CompletionTrace ports w.0 w.1 r s'.world.1) h
        (λ (token_config, callback) s1 h1.
          answer_callback-CompletionTrace session token_config callback w s1 h1)
        (λ e s1 h1. quiet-CompletionTrace e w s1 h1)

  -- Whatever its ports answer, a completion ends in one of the ways of `CompletionTrace`. Nothing
  -- is asked before the exchange, and the store only for a response of the exchange that grants,
  -- with a valid subject. A token is returned only if the last event is a successful store, for
  -- the verified subject, of the well-shaped refresh token of the response, and, at the clocks as
  -- the load left them, the identity was fresh with a skew of 120 seconds and the token is that of
  -- the response within its bounds. An error stores nothing, and it revokes the new grant only
  -- where the store had been read as empty for the subject.
  pub complete_authorization-CompletionTrace :
      (parse : Text → Option Url) (config : BrokerConfig) (session_handle callback_url : Text)
      (s : BrokerCore (W × List Event))
      → let m = complete_authorization (journal ports) parse config session_handle callback_url s in
        CompletionTrace ports s.world.0 s.world.1 m.0 m.1.world.1
  unfolding complete_authorization claim_session
  complete_authorization-CompletionTrace parse config session_handle callback_url s =
      on_result-Ends (lift (parse_handle session_handle))
        (λ handle.
          claim_session (journal ports) handle
          >>= complete_claimed (journal ports) parse config callback_url)
        raise s (Quiet s.world) (λ r s'. CompletionTrace ports s.world.0 s.world.1 r s'.world.1)
        refl
        (λ handle s1 h1.
          on_result-Ends (claim_session (journal ports) handle)
            (complete_claimed (journal ports) parse config callback_url) raise s1 (Quiet s.world)
            (λ r s'. CompletionTrace ports s.world.0 s.world.1 r s'.world.1) h1
            (λ session s2 h2.
              complete_claimed-CompletionTrace parse config callback_url session s.world s2 h2)
            (λ e s2 h2. quiet-CompletionTrace e s.world s2 h2))
        (λ e s1 h1. quiet-CompletionTrace e s.world s1 h1)
