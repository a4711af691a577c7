-- ===== src/Runtime/Loopback/Callbacks.antt =====
-- What the listener answers: only a matching callback, and one that arrives among its connections.
use tersa_app.Prelude.{
  ℕ, zero, suc, ◌+◌, ◌≡◌, ◌≢◌, ◌<◌, ◌≤◌, refl, subst, true, false, Option, none, some, List, [],
  ◌∷◌, take, arith, Bool-cases, inl, inr, ◌⊎◌, ltb,
}
use tersa_app.Prelude.Result.{Result, ok}
use tersa_app.Prelude.Text.{Text, codes}
use tersa_app.Presentation.Mailbox.Search.{find}
use tersa_app.Runtime.Loopback.{
  LoopbackError, is_target, request_target, target_of_line, line_at, target_of_head, from_utf8,
  split_spaces, parse_request_target, read_request_head, read_request_target, Accepted, failed,
  accepted, is_matching_callback, callback_url, answer, respond, serve_connections, serve,
}

request_target_lem :
    (parts : List Text) (target : Text)
    → request_target parts ≡ some target
    → is_target target ≡ true
request_target_lem [] target h = absurd (ground arith)
request_target_lem (a ∷ []) target h = absurd (ground arith)
request_target_lem (a ∷ b ∷ []) target h = absurd (ground arith)
request_target_lem (a ∷ b ∷ c ∷ d ∷ parts) target h = absurd (ground arith)
request_target_lem (method ∷ t ∷ version ∷ []) target h = elim (Bool-cases (is_target t)) [
  | inl fits ↦ let same : t ≡ target = ground arith in subst (λ x. is_target x ≡ true) same fits
  | inr other ↦ absurd (ground arith)
]

read_request_target_lem :
    (reads : List (Option (List ℕ))) (target : Text)
    → read_request_target reads ≡ some target
    → is_target target ≡ true
unfolding read_request_target parse_request_target
read_request_target_lem reads target h = of_head (read_request_head [] reads) h
  where
    of_line : (line : Option Text) → target_of_line line ≡ some target → is_target target ≡ true
    of_line none g = absurd (ground arith)
    of_line (some line) g = request_target_lem (split_spaces line) target g

    of_end :
        (head : List ℕ) (end : Option ℕ) → line_at head end ≡ some target → is_target target ≡ true
    of_end head none g = absurd (ground arith)
    of_end head (some end) g = of_line (from_utf8 (take end head)) g

    of_head : (head : Option (List ℕ)) → target_of_head head ≡ some target → is_target target ≡ true
    of_head none g = absurd (ground arith)
    of_head (some head) g = of_end head (find (codes "\r\n") head) g

module _ (parse_query : Text → List (Text × Text)) (port expected : Text)
    (accept : ℕ → Accepted) where
  -- the connection `k` brought the callback
  pub record IsCallback (k : ℕ) (target : Text) : Type 0 where
    pub reads : List (Option (List ℕ))
    pub loopback : accept k ≡ accepted true reads
    pub request : read_request_target reads ≡ some target
    pub matching : is_matching_callback parse_query target expected ≡ true
    pub visible : is_target target ≡ true

  respond_lem :
      (k : ℕ) (rest : Result LoopbackError Text) (url : Text) (a : Accepted)
      → accept k ≡ a
      → respond parse_query port expected rest a ≡ ok url
      → ((target : Text) × IsCallback k target × (url ≡ callback_url parse_query port target))
        ⊎ (rest ≡ ok url)
  respond_lem k rest url failed here h = absurd (ground arith)
  respond_lem k rest url (accepted false reads) here h = inr h
  respond_lem k rest url (accepted true reads) here h = go (read_request_target reads) refl h
    where
      go :
          (t : Option Text)
          → read_request_target reads ≡ t
          → answer parse_query port expected rest t ≡ ok url
          → ((target : Text) × IsCallback k target × (url ≡ callback_url parse_query port target))
            ⊎ (rest ≡ ok url)
      go none same g = inr g
      go (some target) same g =
          elim (Bool-cases (is_matching_callback parse_query target expected)) [
            | inl matching ↦ inl (
              target,
              record {
                reads = reads;
                loopback = here;
                request = same;
                matching = matching;
                visible = read_request_target_lem reads target same;
              },
              ground arith,
            )
            | inr other ↦ inr (ground arith)
          ]

  connections_lem :
      (remaining next : ℕ) (url : Text)
      → serve_connections parse_query port expected accept remaining next ≡ ok url
      → (k : ℕ) × (target : Text) × (k < next + remaining)
        × IsCallback k target
        × (url ≡ callback_url parse_query port target)
  unfolding serve_connections
  connections_lem zero next url h = absurd (ground arith)
  connections_lem (suc remaining) next url h =
      elim (respond_lem next
        (serve_connections parse_query port expected accept remaining (next + 1)) url (accept next)
        refl h) [
          | inl (target, callback, same) ↦ (next, target, omega arith, callback, same)
          | inr later ↦
              let (k, target, within, callback, same) =
                connections_lem remaining (next + 1) url later in
              (k, target, omega (arith, within), callback, same)
        ]

  -- A URL that the listener answers is that of a callback among its first 32 connections: from the
  -- loopback, with a target of visible characters that starts with a slash and has the expected state
  -- exactly once.
  pub serve_lem :
      (url : Text)
      → serve parse_query port expected accept ≡ ok url
      → (k : ℕ) × (target : Text) × (k < 32)
        × IsCallback k target
        × (url ≡ callback_url parse_query port target)
  unfolding serve
  serve_lem url h =
      let (k, target, within, callback, same) = connections_lem 32 0 url h in
      (k, target, omega (arith, within), callback, same)

  respond-goes_on :
      (a : Accepted) (rest : Result LoopbackError Text) (url : Text)
      → a ≢ failed
      → rest ≡ ok url
      → (url' : Text) × (respond parse_query port expected rest a ≡ ok url')
  respond-goes_on failed rest url h g = absurd (h refl)
  respond-goes_on (accepted false reads) rest url h g = (url, g)
  respond-goes_on (accepted true reads) rest url h g = go (read_request_target reads)
    where
      go : (t : Option Text) → (url' : Text) × (answer parse_query port expected rest t ≡ ok url')
      go none = (url, g)
      go (some target) = elim (Bool-cases (is_matching_callback parse_query target expected)) [
        | inl matching ↦ (callback_url parse_query port target, rw matching refl)
        | inr other ↦ (url, rw other g)
      ]

  respond-callback :
      (k : ℕ) (target : Text) (rest : Result LoopbackError Text)
      → IsCallback k target
      → respond parse_query port expected rest (accept k)
        ≡ ok (callback_url parse_query port target)
  respond-callback k target rest c = rw c.loopback (rw c.request (rw c.matching refl))

  connections-answer :
      (remaining next k : ℕ) (target : Text)
      → IsCallback k target
      → next ≤ k
      → k < next + remaining
      → ((j : ℕ) → j < k → accept j ≢ failed)
      → (url : Text) × (serve_connections parse_query port expected accept remaining next ≡ ok url)
  unfolding serve_connections
  connections-answer zero next k target c from under healthy = absurd (omega (arith, from, under))
  connections-answer (suc remaining) next k target c from under healthy =
      let rest = serve_connections parse_query port expected accept remaining (next + 1) in
      elim (Bool-cases (ltb next k)) [
        | inl before ↦
            let (url, done) =
              connections-answer remaining (next + 1) k target c (ground arith)
                (omega (arith, under)) healthy in
            respond-goes_on (accept next) rest url (healthy next (ground arith)) done
        | inr now ↦
            let here : k ≡ next = ground arith in
            (
              callback_url parse_query port target,
              subst
                  (λ j.
                    respond parse_query port expected rest (accept j)
                    ≡ ok (callback_url parse_query port target))
                  here (respond-callback k target rest c),
            )
      ]

  -- If one of the first 32 connections brings a callback, and no accept fails before it, the listener
  -- answers with a URL, whatever the other connections bring.
  pub serve-answers :
      (k : ℕ) (target : Text)
      → k < 32
      → IsCallback k target
      → ((j : ℕ) → j < k → accept j ≢ failed)
      → (url : Text) × (serve parse_query port expected accept ≡ ok url)
  unfolding serve
  serve-answers k target within c healthy =
      connections-answer 32 0 k target c (omega arith) (omega (arith, within)) healthy
