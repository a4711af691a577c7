-- ===== src/Examples/Listeners.antt =====
-- The theorems on the listener at concrete inputs: the second connection brings the callback.
use tersa_app.Prelude.{ℕ, zero, suc, ◌≡◌, ◌≢◌, ◌<◌, refl, true, false, some, List, [], ◌∷◌, arith}
use tersa_app.Prelude.Result.{ok}
use tersa_app.Prelude.Text.{Text, codes, bytes, encode, text_eq}
use tersa_app.Runtime.Loopback.{
  Accepted, failed, accepted, serve, callback_url, read_request_target, is_matching_callback,
}
use tersa_app.Runtime.Loopback.Callbacks.{IsCallback, serve_lem, serve-answers}

abbrev parse_query : Text → List (Text × Text)
parse_query query = (codes "state", codes "s3") ∷ []

abbrev accept : ℕ → Accepted
accept zero = accepted false []
accept (suc k) = accepted true (some (codes "GET /?state=s3 HTTP/1.1\r\n\r\n") ∷ [])

abbrev url : Text
url = codes "http://127.0.0.1:5000/?state=s3"

served : serve parse_query (codes "5000") (codes "s3") accept ≡ ok url
unfolding serve text_eq bytes encode
served = refl

serve_lem_example :
    (k : ℕ) × (target : Text) × (k < 32)
    × IsCallback parse_query (codes "5000") (codes "s3") accept k target
    × (url ≡ callback_url parse_query (codes "5000") target)
serve_lem_example = serve_lem parse_query (codes "5000") (codes "s3") accept url served

second-IsCallback : IsCallback parse_query (codes "5000") (codes "s3") accept 1 (codes "/?state=s3")
unfolding read_request_target is_matching_callback text_eq bytes encode
second-IsCallback = record {
  reads = some (codes "GET /?state=s3 HTTP/1.1\r\n\r\n") ∷ [];
  loopback = refl;
  request = refl;
  matching = refl;
  visible = refl;
}

healthy : (j : ℕ) → j < 1 → accept j ≢ failed
healthy zero h g = ground arith
healthy (suc j) h g = absurd (omega (arith, h))

serve-answers_example :
    (url : Text) × (serve parse_query (codes "5000") (codes "s3") accept ≡ ok url)
serve-answers_example =
    serve-answers parse_query (codes "5000") (codes "s3") accept 1 (codes "/?state=s3")
      (omega arith) second-IsCallback healthy
