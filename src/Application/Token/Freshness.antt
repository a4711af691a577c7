-- ===== src/Application/Token/Freshness.antt =====
-- The freshness window of an identity token: saturation does not widen it.
use tersa_app.Prelude.{ℕ, ◌+◌, ◌-◌, ◌^◌, ◌≤◌, ◌<◌, ◌≡◌, ◌↔◌, arith}
use tersa_app.Prelude.Result.{ok}
use tersa_app.Application.Token.{IdentityExpiry, validate_fresh}

-- For 64-bit times, a token is fresh exactly when the time, below the largest one, is before the
-- expiry and not before the issue, each widened by the skew in the naturals: saturation only makes
-- the largest time, which stands for a broken clock, reject every token.
pub validate_fresh_iff :
    (expiry : IdentityExpiry) (now skew_secs : ℕ)
    → now < 2 ^ 64
    → expiry.issued_at < 2 ^ 64
    → (validate_fresh expiry now skew_secs ≡ ok tt) ↔ (
        (now < 2 ^ 64 - 1)
        × (now < expiry.expires_at + skew_secs)
        × (expiry.issued_at ≤ now + skew_secs))
unfolding validate_fresh
validate_fresh_iff expiry now skew_secs n i =
    (λ h. ground arith, λ h. ground (arith, h.0, h.1, h.2))
