-- ===== src/Examples/Tokens.antt =====
-- The theorems on the token endpoint and on terminal text at concrete inputs.
use tersa_app.Prelude.Text.{encode}
use tersa_app.Prelude.Text.{bytes}
use tersa_app.Prelude.Text.{trim}
use tersa_app.Prelude.Text.{text_eq}
use tersa_app.Prelude.{
  ◌+◌, ◌-◌, ◌^◌, ◌≤◌, ◌<◌, ◌≡◌, ◌≢◌, ◌↔◌, refl, true, false, none, some, [], ◌∷◌, all, any, keep,
  arith,
}
use tersa_app.Prelude.Result.{ok, err}
use tersa_app.Prelude.Text.{Text, codes, is_control}
use tersa_app.Application.OAuth.{AuthorizationGrant}
use tersa_app.Application.Token.{
  TokenError, TokenTransportError, TokenClientConfig, IdTokenClaims, IdentityExpiry, TokenResponse,
  TokenSuccess, Endpoint, refresh_access_token, exchange_grant, refresh_parameters, validate_fresh,
}
use tersa_app.Application.Token.Identity.{IsVerified, refresh_access_token_lem, consent_revoked_iff}
use tersa_app.Application.Token.Freshness.{validate_fresh_iff}
use tersa_app.Presentation.Terminal.{
  single_line, multi_line, single_line_lem, multi_line_lem, is_allowed, is_unsafe, is_plain,
}

abbrev config : TokenClientConfig
config = record {
  client_id = codes "c";
  redirect_uri = record {
    as_str = codes "http://127.0.0.1:5000/";
    scheme = codes "http";
    host_str = some (codes "127.0.0.1");
    port = some 5000;
    path = codes "/";
    username = [];
    password = none;
    query = none;
    fragment = none;
    query_pairs = [];
  };
  client_secret = none;
}

abbrev claims : IdTokenClaims
claims = record {
  subject = codes " 42 ";
  audiences = codes "c" ∷ [];
  issuer = codes "accounts.google.com";
  authorized_party = none;
  issued_at = 5;
  expires_at = 9;
}

abbrev response : TokenResponse
response = record {
  access_token = codes "t";
  expires_in = 60;
  rotated_refresh_token = none;
  id_token_claims = some claims;
  gmail_read_granted = true;
}

abbrev endpoint : Endpoint
endpoint request = ok response

abbrev success : TokenSuccess
success = record {
  access_token = codes "t";
  access_expires_at = 67;
  rotated_refresh_token = none;
  subject = codes "42";
  identity_expiry = record { issued_at = 5; expires_at = 9 };
  gmail_read_granted = true;
}

abbrev grant : AuthorizationGrant
grant = record { code = codes "c"; verifier = codes "v" }

refreshed : refresh_access_token (codes "r") config endpoint 7 ≡ ok success
unfolding refresh_access_token text_eq trim bytes encode
refreshed = refl

refresh_access_token_lem_example :
    (r : TokenResponse) × (endpoint (refresh_parameters (codes "r") config) ≡ ok r)
    × IsVerified r config success
refresh_access_token_lem_example =
    refresh_access_token_lem (codes "r") config endpoint 7 success refreshed

exchanged : exchange_grant grant config endpoint 7 ≡ ok success
unfolding exchange_grant text_eq trim bytes encode
exchanged = refl

abbrev revoked : Endpoint
revoked request = err TokenTransportError.invalid_grant

consent_revoked_iff_example :
    ((refresh_access_token (codes "r") config revoked 7 ≡ err TokenError.consent_revoked)
      ↔ (revoked (refresh_parameters (codes "r") config) ≡ err TokenTransportError.invalid_grant))
    × (exchange_grant grant config revoked 7 ≢ err TokenError.consent_revoked)
consent_revoked_iff_example = consent_revoked_iff (codes "r") grant config revoked 7

abbrev expiry : IdentityExpiry
expiry = record { issued_at = 5; expires_at = 9 }

validate_fresh_iff_example :
    (validate_fresh expiry 10 3 ≡ ok tt) ↔ ((10 < 2 ^ 64 - 1) × (10 < 9 + 3) × (5 ≤ 10 + 3))
validate_fresh_iff_example = validate_fresh_iff expiry 10 3 (omega arith) (omega arith)

abbrev hostile : Text
hostile = 97 ∷ 27 ∷ 10 ∷ 98 ∷ 0x202E ∷ []

single_line_lem_example :
    (all is_allowed (single_line hostile) ≡ true)
    × (any is_control (single_line hostile) ≡ false)
    × (single_line (single_line hostile) ≡ single_line hostile)
single_line_lem_example = single_line_lem hostile

multi_line_lem_example :
    (any is_unsafe (multi_line hostile) ≡ false)
    × (keep is_plain (multi_line hostile) ≡ keep is_plain hostile)
    × (multi_line (multi_line hostile) ≡ multi_line hostile)
multi_line_lem_example = multi_line_lem hostile
