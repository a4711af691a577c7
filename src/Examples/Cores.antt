-- ===== src/Examples/Cores.antt =====
-- The theorems on the broker's operations at concrete inputs.
use tersa_app.Broker.Registry.{is_pending}
use tersa_app.Prelude.{
  ℕ, ◌+◌, ◌*◌, ◌≤◌, ◌<◌, ◌≡◌, refl, true, false, none, some, List, [], ◌∷◌, Option, arith,
}
use tersa_app.Prelude.Result.{ok, err}
use tersa_app.Prelude.Text.{Text, codes, len, encode, bytes, trim, text_eq}
use tersa_app.Application.OAuth.Urls.{Url}
use tersa_app.Application.OAuth.{AuthorizationSession}
use tersa_app.Application.Token.{TokenResponse, TokenSuccess, TokenTransportError}
use tersa_app.Broker.{session_unknown}
use tersa_app.Broker.Handles.{parse_handle}
use tersa_app.Broker.Registry.{claim}
use tersa_app.Broker.Permits.Flights.{distinct_subjects}
use tersa_app.Broker.Registry.Allocation.{IsBounded, distinct_handles}
use tersa_app.Broker.Core.{Ports, BrokerConfig, BrokerCore, BrokerToken, broker_token}
use tersa_app.Broker.Core.Bounds.{broker_token_lem}
use tersa_app.Broker.Core.Guarded.{IsHeld}
use tersa_app.Broker.Core.Restores.{permits_lem, complete_authorization_replay}
use tersa_app.Broker.Core.Begin.{Readings, PendingAuthorization, begin_authorization}
use tersa_app.Broker.Core.Pending.{IsPrepared, begin_authorization_lem}
use tersa_app.Broker.Core.Complete.{complete_authorization}
use tersa_app.Broker.Core.Refresh.{refresh_access_token}
use tersa_app.Broker.Core.Revoke.{revoke_provider_grant, delete_stored_tokens}
use tersa_app.Broker.Journal.{Event, journal, exchanged, loaded, stored}
use tersa_app.Broker.Journal.Complete.{CompletionTrace, complete_authorization-CompletionTrace}
use tersa_app.Broker.Journal.Refresh.{RefreshTrace, refresh_access_token-RefreshTrace}
use tersa_app.Broker.Journal.Revoke.{RevokeTrace, revoke_provider_grant-RevokeTrace}

abbrev url_of : Text → List (Text × Text) → Url
url_of text pairs = record {
  as_str = text;
  scheme = codes "http";
  host_str = some (codes "127.0.0.1");
  port = some 5000;
  path = codes "/";
  username = [];
  password = none;
  query = none;
  fragment = none;
  query_pairs = pairs;
}

abbrev redirect : Text
redirect = codes "http://127.0.0.1:5000/"

abbrev parse : Text → Option Url
parse text = some (url_of redirect ((codes "state", codes "s3") ∷ (codes "code", codes "c") ∷ []))

abbrev handle : Text
handle = codes "AAAAAAAAAAAAAAAAAAAAAA"

abbrev response : TokenResponse
response = record {
  access_token = codes "t";
  expires_in = 60_000_000_000;
  rotated_refresh_token = some (codes "r");
  id_token_claims = some (record {
    subject = codes "42";
    audiences = codes "c" ∷ [];
    issuer = codes "accounts.google.com";
    authorized_party = none;
    issued_at = 5;
    expires_at = 900;
  });
  gmail_read_granted = true;
}

-- ports whose world is a store of one slot; the revocation endpoint never answers
abbrev ports : Ports (Option Text)
ports = record {
  exchange = λ parameters w. (ok response, w);
  refresh = λ parameters w. (ok response, w);
  revoke = λ token w. (err TokenTransportError.transport, w);
  store = λ subject token w. (ok tt, some token);
  load = λ subject w. (ok w, w);
  delete = λ subject w. (ok tt, none);
  clock = λ w. 7;
  wall_clock = λ w. 10;
}

abbrev config : BrokerConfig
config = record { client_id = codes "c"; client_secret = none; session_ttl = 600_000_000_000 }

abbrev core : {W : Type 0} → W → BrokerCore W
core w = record {
  world = w;
  registry = record {
    sessions =
        (
          handle,
          record {
            expires_at = 100;
            redirect_uri = url_of redirect [];
            state = codes "s3";
            verifier = codes "v";
            consumed = false;
          },
        )
        ∷ [];
    poisoned = false;
  };
  permits = record { held = codes "other" ∷ []; poisoned = false };
}

abbrev journaled : BrokerCore (Option Text × List Event)
journaled = core (none, [])

-- the run that the first witness is about succeeds
completed :
    (complete_authorization (journal ports) parse config handle redirect journaled).1.world.1
    ≡ stored (codes "42") (codes "r") ∷ loaded (codes "42") none ∷ exchanged (ok response) ∷ []
unfolding complete_authorization text_eq trim bytes encode
completed = refl

complete_authorization-CompletionTrace_example :
    let m = complete_authorization (journal ports) parse config handle redirect journaled in
    CompletionTrace ports journaled.world.0 [] m.0 m.1.world.1
complete_authorization-CompletionTrace_example =
    complete_authorization-CompletionTrace ports parse config handle redirect journaled

refresh_access_token-RefreshTrace_example :
    let m =
      refresh_access_token
        (journal ports)
        parse
        config
        (codes "42")
        (core (some (codes "r0"), [])) in
    RefreshTrace (codes "42") [] m.0 m.1.world.1
refresh_access_token-RefreshTrace_example =
    refresh_access_token-RefreshTrace ports parse config (codes "42") (core (some (codes "r0"), []))

revoke_provider_grant-RevokeTrace_example :
    let m = revoke_provider_grant (journal ports) (codes "42") (core (some (codes "r0"), [])) in
    RevokeTrace (codes "42") [] m.0 m.1.world.1
revoke_provider_grant-RevokeTrace_example =
    revoke_provider_grant-RevokeTrace ports (codes "42") (core (some (codes "r0"), []))

core-IsHeld : IsHeld (core {W = Option Text} none).permits
unfolding distinct_subjects
core-IsHeld = record { few = omega arith; distinct = refl }

permits_lem_example :
    let s = core {W = Option Text} none in
    ((complete_authorization ports parse config handle redirect s).1.permits ≡ s.permits)
    × ((refresh_access_token ports parse config (codes "42") s).1.permits ≡ s.permits)
    × ((revoke_provider_grant ports (codes "42") s).1.permits ≡ s.permits)
    × ((delete_stored_tokens ports (codes "42") s).1.permits ≡ s.permits)
permits_lem_example =
    permits_lem ports parse config handle redirect (codes "42") (core none) core-IsHeld

parsed : parse_handle handle ≡ ok handle
unfolding parse_handle bytes encode
parsed = refl

complete_authorization_replay_example :
    let s' = (complete_authorization ports parse config handle redirect (core none)).1 in
    let m = complete_authorization ports parse config handle (codes "x") s' in
    (m.0 ≡ err session_unknown) × (m.1.world ≡ s'.world)
complete_authorization_replay_example =
    complete_authorization_replay ports parse config handle redirect (codes "x") handle (core none)
      core-IsHeld refl parsed

abbrev thirty_two : List ℕ
thirty_two =
    1 ∷ 2 ∷ 3 ∷ 4 ∷ 5 ∷ 6 ∷ 7 ∷ 8 ∷ 9 ∷ 10 ∷ 11 ∷ 12 ∷ 13 ∷ 14 ∷ 15 ∷ 16 ∷ 1 ∷ 2 ∷ 3 ∷ 4 ∷ 5 ∷ 6 ∷ 7
    ∷ 8 ∷ 9 ∷ 10 ∷ 11 ∷ 12 ∷ 13 ∷ 14 ∷ 15 ∷ 16 ∷ []

abbrev readings : Readings
readings = record {
  now = 7;
  secrets = some (thirty_two, thirty_two);
  handles = λ k. ok ((48 + k) ∷ []);
  expiry_clock = λ h. 7;
}

abbrev identity : List ℕ → List ℕ
identity bytes = bytes

abbrev parse_plain : Text → Option Url
parse_plain text = some (url_of text [])

abbrev pending : PendingAuthorization
pending =
    elim (begin_authorization identity identity parse_plain config readings redirect
      (core tt).registry).0 [
        | ok p ↦ p
        | err e ↦ record {
          authorization_url = record { endpoint = []; query_pairs = [] };
          session_handle = [];
        }
      ]

begun :
    (begin_authorization identity identity parse_plain config readings redirect
      (core tt).registry).0
    ≡ ok pending
unfolding begin_authorization text_eq bytes encode trim
begun = refl

registry-IsBounded : IsBounded (core tt).registry
unfolding distinct_handles is_pending
registry-IsBounded = record { few = omega arith; distinct = refl }

begin_authorization_lem_example :
    let registry' =
      (begin_authorization identity identity parse_plain config readings redirect
        (core tt).registry).1 in
    (session : AuthorizationSession) × IsPrepared parse_plain config 7 redirect session
    × ((claim pending.session_handle registry').0 ≡ ok session)
    × ((claim pending.session_handle (claim pending.session_handle registry').1).0
        ≡ err session_unknown)
begin_authorization_lem_example =
    begin_authorization_lem identity identity parse_plain config readings redirect
      (core tt).registry pending registry-IsBounded begun

abbrev success : TokenSuccess
success = record {
  access_token = codes "t";
  access_expires_at = 61_000_000_000;
  rotated_refresh_token = none;
  subject = codes "42";
  identity_expiry = record { issued_at = 5; expires_at = 9 };
  gmail_read_granted = true;
}

abbrev issued : BrokerToken
issued = record { access_token = codes "t"; subject = codes "42"; expires_in_seconds = 60 }

success-issued : broker_token success 7 ≡ ok issued
unfolding broker_token bytes encode
success-issued = refl

broker_token_lem_example :
    (len issued.access_token ≤ 4096)
    × (1 ≤ issued.expires_in_seconds)
    × (issued.expires_in_seconds ≤ 86400)
    × (7 + issued.expires_in_seconds * 1_000_000_000 ≤ success.access_expires_at)
    × (success.access_expires_at < 7 + (issued.expires_in_seconds + 1) * 1_000_000_000)
broker_token_lem_example = broker_token_lem success 7 issued success-issued
