-- ===== src/Application/OAuth/Callback.antt =====
-- What a callback that is granted has said.
use tersa_app.Prelude.{
  ℕ, ◌<◌, ◌≡◌, refl, ap, sym, ◌∙◌, true, false, not, Option, none, some, List, [], ◌∷◌, arith,
  if◌then◌else◌, Bool-cases, Option-cases, inl, inr, leb, is_empty,
}
use tersa_app.Prelude.Result.{Result, ok, err, is_err}
use tersa_app.Prelude.Text.{Text, codes, bytes, text_eq, text_eq_iff}
use tersa_app.Application.OAuth.Urls.{Url, lookup, before_query, has_key}
use tersa_app.Application.OAuth.{
  OAuthError, AuthorizationSession, AuthorizationGrant, insert_unique, unique_query_parameters,
  required_parameter, validate_redirect, scope_missing, callback_outcome, validate_callback,
  consume, finish, expired, state_mismatch,
}

-- the later of two sources of a parameter
abbrev or_else : Option Text → Option Text → Option Text
or_else (some v) o = some v
or_else none o = o

absent : (name : Text) (ps : List (Text × Text)) → has_key name ps ≡ false → lookup name ps ≡ none
unfolding has_key lookup
absent name [] h = refl
absent name ((key, value) ∷ ps) h = ground (arith, absent name ps)

insert_unique-lookup :
    (name : Text) (acc pairs ps : List (Text × Text))
    → insert_unique acc pairs ≡ ok ps
    → lookup name ps ≡ or_else (lookup name acc) (lookup name pairs)
unfolding insert_unique lookup
insert_unique-lookup name acc [] ps h = ground (arith, Option-cases (lookup name acc))
insert_unique-lookup name acc ((key, value) ∷ pairs) ps h = ground (
  arith,
  insert_unique-lookup name ((key, value) ∷ acc) pairs ps,
  absent name acc,
  text_eq_iff key name,
  Option-cases (lookup name acc),
)

-- what a callback says that is granted
pub record IsAnswer (now : ℕ) (callback : Url) (s : AuthorizationSession) (g : AuthorizationGrant)
    : Type 0 where
  pub unused : s.consumed ≡ false
  pub unique : is_err (unique_query_parameters callback) ≡ false
  pub in_time : now < s.expires_at
  pub no_fragment : callback.fragment ≡ none
  pub redirect : before_query callback.as_str ≡ s.redirect_uri.as_str
  pub state : Text
  pub state_given : lookup (codes "state") callback.query_pairs ≡ some state
  pub state_equal : bytes state ≡ s.state
  pub code_given : lookup (codes "code") callback.query_pairs ≡ some g.code
  pub code_nonempty : is_empty g.code ≡ false
  pub no_error : lookup (codes "error") callback.query_pairs ≡ none
  pub scoped : scope_missing (lookup (codes "scope") callback.query_pairs) ≡ false
  pub verifier : g.verifier ≡ s.verifier

outcome-granted :
    (s : AuthorizationSession) (ps : List (Text × Text)) (code error : Option Text)
    (g : AuthorizationGrant)
    → callback_outcome s ps code error ≡ ok g
    → (code ≡ some g.code)
      × (error ≡ none)
      × (is_empty g.code ≡ false)
      × (scope_missing (lookup (codes "scope") ps) ≡ false)
      × (g.verifier ≡ s.verifier)
outcome-granted s ps (some code) (some error) g h = absurd (ground arith)
outcome-granted s ps none (some error) g h = absurd (ground arith)
outcome-granted s ps none none g h = absurd (ground arith)
outcome-granted s ps (some code) none g h = ground arith

given :
    (name : Text) (ps : List (Text × Text)) (v : Text)
    → required_parameter ps name ≡ ok v
    → lookup name ps ≡ some v
unfolding required_parameter
given name ps v h = ground (arith, Option-cases (lookup name ps))

redirected :
    (s : AuthorizationSession) (callback : Url)
    → validate_redirect s callback ≡ ok tt
    → (callback.fragment ≡ none) × (before_query callback.as_str ≡ s.redirect_uri.as_str)
unfolding validate_redirect
redirected s callback h =
    ground (arith, text_eq_iff (before_query callback.as_str) s.redirect_uri.as_str)

module _ (now : ℕ) (callback : Url) (s : AuthorizationSession) (g : AuthorizationGrant)
    (u : s.consumed ≡ false) (in_time : leb s.expires_at now ≡ false) where
  -- the end of the validation, as it goes on from the parameters
  abbrev from_parameters :
      List (Text × Text) → Result OAuthError Text → Result OAuthError AuthorizationGrant
  from_parameters ps (err e) = err e
  from_parameters ps (ok state) =
      if not (text_eq s.state (bytes state))
      then err state_mismatch
      else callback_outcome s ps (lookup (codes "code") ps) (lookup (codes "error") ps)

  abbrev from_redirect :
      Result OAuthError (Unit {0})
      → Result OAuthError (List (Text × Text))
      → Result OAuthError AuthorizationGrant
  from_redirect (err e) r = err e
  from_redirect (ok x) (err e) = err e
  from_redirect (ok x) (ok ps) = from_parameters ps (required_parameter ps (codes "state"))

  answered :
      (ps : List (Text × Text)) (r : Result OAuthError Text)
      → required_parameter ps (codes "state") ≡ r
      → unique_query_parameters callback ≡ ok ps
      → validate_redirect s callback ≡ ok tt
      → from_parameters ps r ≡ ok g
      → IsAnswer now callback s g
  unfolding unique_query_parameters lookup
  answered ps (err e) p q v h = absurd (ground arith)
  answered ps (ok state) p q v h = elim (Bool-cases (text_eq s.state (bytes state))) [
    | inr other ↦ absurd (ground arith)
    | inl same ↦
        let (code_ok, error_ok, nonempty, scoped, verifier_ok) =
          outcome-granted s ps (lookup (codes "code") ps) (lookup (codes "error") ps) g
            (ground arith) in
        let (whole, exact) = redirected s callback v in
        let read = (λ (name : Text). insert_unique-lookup name [] callback.query_pairs ps q) in
        record {
          unused = u;
          unique = rw q refl;
          in_time = ground (arith, in_time);
          no_fragment = whole;
          redirect = exact;
          state = state;
          state_given = sym (read (codes "state")) ∙ given (codes "state") ps state p;
          state_equal = sym ((text_eq_iff s.state (bytes state)).0 same);
          code_given = sym (read (codes "code")) ∙ code_ok;
          code_nonempty = nonempty;
          no_error = sym (read (codes "error")) ∙ error_ok;
          scoped = ap scope_missing (sym (read (codes "scope"))) ∙ scoped;
          verifier = verifier_ok;
        }
  ]

  redirect_answered :
      (v : Result OAuthError (Unit {0})) (r : Result OAuthError (List (Text × Text)))
      → validate_redirect s callback ≡ v
      → unique_query_parameters callback ≡ r
      → from_redirect v r ≡ ok g
      → IsAnswer now callback s g
  redirect_answered (err e) r p q h = absurd (ground arith)
  redirect_answered (ok x) (err e) p q h = absurd (ground arith)
  redirect_answered (ok x) (ok ps) p q h =
      answered ps (required_parameter ps (codes "state")) refl q p h

  validate_callback-stages :
      validate_callback now (record s { consumed = true }) callback
      ≡ from_redirect (validate_redirect s callback) (unique_query_parameters callback)
  unfolding validate_callback validate_redirect
  validate_callback-stages = ground arith

late_refused :
    (now : ℕ) (callback : Url) (s : AuthorizationSession)
    → leb s.expires_at now ≡ true
    → validate_callback now s callback ≡ err expired
unfolding validate_callback
late_refused now callback s h = rw h refl

finish_unused :
    (now : ℕ) (callback : Url) (s : AuthorizationSession)
    → s.consumed ≡ false
    → (finish now callback s).0 ≡ validate_callback now (record s { consumed = true }) callback
unfolding finish consume
finish_unused now callback s h = ground arith

-- A callback that is granted answers an unused session before its deadline: it has no fragment, its
-- part before the query is the redirect of the session, no parameter occurs twice, its state is the
-- one of the session, it has a code and no error, and a scope that it has holds the Gmail scope.
-- The grant has that code and the verifier of the session.
pub finish_lem :
    (now : ℕ) (callback : Url) (s : AuthorizationSession) (g : AuthorizationGrant)
    → (finish now callback s).0 ≡ ok g
    → IsAnswer now callback s g
unfolding finish consume
finish_lem now callback s g h = elim (Bool-cases s.consumed) [
  | inl used ↦ absurd (ground arith)
  | inr unused ↦ elim (Bool-cases (leb s.expires_at now)) [
    | inl late ↦ absurd (
        ground (
          arith,
          finish_unused now callback s unused,
          late_refused now callback (record s { consumed = true }) late,
        ))
    | inr in_time ↦
        redirect_answered now callback s g unused in_time (validate_redirect s callback)
          (unique_query_parameters callback) refl refl
          (sym (validate_callback-stages now callback s g unused in_time)
            ∙ sym (finish_unused now callback s unused)
            ∙ h)
  ]
]
