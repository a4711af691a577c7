-- ===== src/Broker/Handles.antt =====
-- adapters/token-broker-core/src/handle.rs and subject.rs: session handles and subjects.
use tersa_app.Prelude.{
  ℕ, ◌≤◌, ◌≡◌, ◌↔◌, Bool, true, false, not, ◌&&◌, ◌||◌, all, is_empty, in_range, ltb, if◌then◌else◌,
  arith, length,
}
use tersa_app.Prelude.Tests.{◌==◌}
use tersa_app.Prelude.Result.{Result, ok, err}
use tersa_app.Prelude.Text.{Text, bytes, len, is_ascii_graphic, all-graphic-bytes, len-graphic}
use tersa_app.Broker.{BrokerError, invalid_input}

abbrev pub session_handle_len : ℕ
session_handle_len = 22

abbrev pub max_subject_len : ℕ
max_subject_len = 255

-- `u8::is_ascii_alphanumeric`
abbrev pub is_ascii_alphanumeric : ℕ → Bool
is_ascii_alphanumeric c = in_range b'0' b'9' c || in_range b'A' b'Z' c || in_range b'a' b'z' c

-- `SessionHandle::parse`
unfoldable pub parse_handle : Text → Result BrokerError Text
parse_handle text =
    let well_formed =
      (len text == session_handle_len)
      && all (λ c. is_ascii_alphanumeric c || c == b'-' || c == b'_') (bytes text) in
    if not well_formed then err invalid_input else ok text

-- `ValidatedSubject::new`
unfoldable pub new_subject : Text → Result BrokerError Text
new_subject text =
    let visible_ascii = all is_ascii_graphic (bytes text) in
    if is_empty text || ltb max_subject_len (len text) || not visible_ascii
    then err invalid_input
    else ok text

-- what `ValidatedSubject` promises of its text
pub record IsSubject (s : Text) : Type 0 where
  pub nonempty : is_empty s ≡ false
  pub bounded : length s ≤ 255
  pub visible : all is_ascii_graphic s ≡ true

-- A subject is accepted exactly when it is made of 1 to 255 visible ASCII characters, and it is
-- given back unchanged.
pub new_subject_iff : (s : Text) → (new_subject s ≡ ok s) ↔ IsSubject s
unfolding new_subject
new_subject_iff s = (
  λ h. ground (arith, all-graphic-bytes s, len-graphic s),
  λ v. ground (arith, v.nonempty, v.bounded, v.visible, all-graphic-bytes s, len-graphic s),
)
