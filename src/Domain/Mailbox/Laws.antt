-- ===== src/Domain/Mailbox/Laws.antt =====
-- What the constructors of crates/domain/src/mailbox.rs accept.
use tersa_app.Prelude.{◌≤◌, ◌≡◌, ◌≢◌, ◌↔◌, true, [], all, length, arith}
use tersa_app.Prelude.Result.{ok}
use tersa_app.Prelude.Text.{Text, is_ascii_graphic, all-graphic-bytes, len-graphic}
use tersa_app.Domain.Mailbox.{new_identifier}

-- the identifiers that the program accepts: 1 to 256 visible ASCII characters
pub record IsIdentifier (s : Text) : Type 0 where
  pub nonempty : s ≢ []
  pub bounded : length s ≤ 256
  pub visible : all is_ascii_graphic s ≡ true

-- `MessageId::new` and `ThreadId::new` accept a text exactly when it is made of 1 to 256 visible
-- ASCII characters, and they give back that text.
pub new_identifier_iff : (s : Text) → (new_identifier s ≡ ok s) ↔ IsIdentifier s
unfolding new_identifier
new_identifier_iff s = (
  λ h. ground (arith, all-graphic-bytes s, len-graphic s),
  λ v. ground (arith, all-graphic-bytes s, len-graphic s),
)
