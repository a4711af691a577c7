-- ===== src/Examples/Brokers.antt =====
-- The theorems on the authorization session and on the broker's registry and permits at concrete
-- inputs.
use tersa_app.Prelude.Text.{encode}
use tersa_app.Prelude.{
  ℕ, ◌+◌, ◌≤◌, ◌≡◌, ◌⊎◌, refl, true, false, none, some, List, [], ◌∷◌, arith, length,
}
use tersa_app.Prelude.Result.{Result, ok, err, is_err}
use tersa_app.Prelude.Text.{Text, codes, bytes, text_eq}
use tersa_app.Application.OAuth.Urls.{Url}
use tersa_app.Application.OAuth.{AuthorizationSession, AuthorizationGrant, finish, expire}
use tersa_app.Application.OAuth.Session.{finishes, cancels, expires, calls, IsWiped, calls_lem}
use tersa_app.Application.OAuth.Callback.{IsAnswer, finish_lem}
use tersa_app.Broker.{BrokerError, busy, session_unknown}
use tersa_app.Broker.Permits.{SubjectPermits, claim_permit, drop_permit, is_held}
use tersa_app.Broker.Permits.Flights.{distinct_subjects, claim_permit_lem}
use tersa_app.Broker.Registry.{SessionRegistry, insert, claim, reap, find_session, is_pending}
use tersa_app.Broker.Registry.Claims.{insert_lem, claim-insert}
use tersa_app.Broker.Registry.Allocation.{IsBounded, distinct_handles}

abbrev url_of : Text → List (Text × Text) → Url
url_of text pairs = record {
  as_str = text;
  scheme = codes "http";
  host_str = some (codes "127.0.0.1");
  port = some 5000;
  path = codes "/";
  username = [];
  password = none;
  query = none;
  fragment = none;
  query_pairs = pairs;
}

abbrev session : AuthorizationSession
session = record {
  expires_at = 100;
  redirect_uri = url_of (codes "http://127.0.0.1:5000/") [];
  state = codes "s3";
  verifier = codes "v";
  consumed = false;
}

abbrev callback : Url
callback =
    url_of (codes "http://127.0.0.1:5000/?state=s3&code=c")
      ((codes "state", codes "s3") ∷ (codes "code", codes "c") ∷ [])

abbrev grant : AuthorizationGrant
grant = record { code = codes "c"; verifier = codes "v" }

finished : (finish 7 callback session).0 ≡ ok grant
unfolding finish text_eq bytes encode
finished = refl

finish_lem_example : IsAnswer 7 callback session grant
finish_lem_example = finish_lem 7 callback session grant finished

calls_lem_example :
    let cs = expires 5 ∷ finishes 7 callback ∷ finishes 8 callback ∷ cancels ∷ [] in
    (calls cs session ≡ (0, session)) ⊎ (((calls cs session).0 ≤ 1) × IsWiped (calls cs session).1)
calls_lem_example =
    calls_lem (expires 5 ∷ finishes 7 callback ∷ finishes 8 callback ∷ cancels ∷ []) session refl

abbrev permits : SubjectPermits
permits = record { held = codes "other" ∷ []; poisoned = false }

claimed_permit : (claim_permit (codes "sub") permits).0 ≡ ok tt
unfolding claim_permit text_eq
claimed_permit = refl

permits-distinct : distinct_subjects permits.held ≡ true
unfolding distinct_subjects
permits-distinct = refl

claim_permit_lem_example :
    let q = (claim_permit (codes "sub") permits).1 in
    (is_held (codes "sub") permits ≡ false)
    × (length q.held ≤ 32)
    × (distinct_subjects q.held ≡ true)
    × (claim_permit (codes "sub") q ≡ (err busy, q))
    × (drop_permit (codes "sub") q ≡ permits)
claim_permit_lem_example =
    claim_permit_lem (codes "sub") permits (omega arith) permits-distinct claimed_permit

-- a registry of one live session; the first handle that the entropy gives is taken
abbrev registry : SessionRegistry
registry = record { sessions = (codes "h0", session) ∷ []; poisoned = false }

abbrev encode_base64 : List ℕ → Text
encode_base64 bytes = 104 ∷ bytes

abbrev entropy : ℕ → Result BrokerError (List ℕ)
entropy k = ok ((48 + k) ∷ [])

abbrev now : Text → ℕ
now handle = 7

registry-IsBounded : IsBounded registry
unfolding distinct_handles is_pending
registry-IsBounded = record { few = omega arith; distinct = refl }

insert_lem_example :
    let r' = (insert encode_base64 entropy session now registry).1 in
    IsBounded r'
    × (r'.poisoned ≡ false)
    × ((find_session (codes "h0") registry.sessions ≡ none)
        ⊎ ((s : AuthorizationSession) × (find_session (codes "h0") registry.sessions ≡ some s)
            × ((is_err (expire (now (codes "h0")) s).0 ≡ false)
                ⊎ (find_session (codes "h0") r'.sessions ≡ some s))))
insert_lem_example =
    insert_lem encode_base64 entropy now session (codes "h0") registry registry-IsBounded refl

inserted : (insert encode_base64 entropy session now registry).0 ≡ ok (codes "h1")
unfolding insert text_eq
inserted = refl

claim-insert_example :
    let r' = (insert encode_base64 entropy session now registry).1 in
    ((claim (codes "h1") r').0 ≡ ok session)
    × ((claim (codes "h1") (claim (codes "h1") r').1).0 ≡ err session_unknown)
    × (find_session (codes "h1") (reap now registry.sessions) ≡ none)
claim-insert_example =
    claim-insert encode_base64 entropy now session (codes "h1") registry registry-IsBounded inserted
