-- ===== src/Broker/Core/Bounds.antt =====
-- The bounds of the tokens that the broker returns.
use tersa_app.Prelude.{ℕ, ◌≤◌, ◌*◌, ◌+◌, ◌<◌, ◌≡◌, arith}
use tersa_app.Prelude.Result.{ok}
use tersa_app.Prelude.Text.{len}
use tersa_app.Application.Token.{TokenSuccess}
use tersa_app.Broker.Core.{BrokerToken, broker_token}

-- A token that the broker returns has an access token of at most 4096 bytes and a lifetime of 1 to
-- 86,400 whole seconds, which ends at or before the expiry of the access token and less than a second
-- before it.
pub broker_token_lem :
    (success : TokenSuccess) (now : ℕ) (token : BrokerToken)
    → broker_token success now ≡ ok token
    → (len token.access_token ≤ 4096)
      × (1 ≤ token.expires_in_seconds)
      × (token.expires_in_seconds ≤ 86400)
      × (now + token.expires_in_seconds * 1_000_000_000 ≤ success.access_expires_at)
      × (success.access_expires_at < now + (token.expires_in_seconds + 1) * 1_000_000_000)
unfolding broker_token
broker_token_lem success now token h =
    (ground arith, ground arith, ground arith, ground arith, ground arith)
