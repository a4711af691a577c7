-- ===== src/Application/Mailbox.antt =====
-- crates/application/src/mailbox.rs: bounded page tokens, page sizes and store limits, pages, and
-- the errors of the two mailbox ports.
use tersa_app.Prelude.{ℕ, Option, List, any, is_empty, ltb, not, in_range, if◌then◌else◌}
use tersa_app.Prelude.Result.{Result, ok, err}
use tersa_app.Prelude.Text.{Text, len, is_control}

abbrev pub max_page_token_len : ℕ
max_page_token_len = 4096

-- `StoreLimit::MAX`
abbrev pub max_store_limit : ℕ
max_store_limit = 10000

pub data MailboxContractError : Type 0 where
  empty_page_token : MailboxContractError
  page_token_too_long : ℕ → MailboxContractError
  invalid_page_token : MailboxContractError
  invalid_page_size : ℕ → MailboxContractError
  invalid_store_limit : ℕ → MailboxContractError

-- `PageToken::new`
unfoldable pub new_page_token : Text → Result MailboxContractError Text
new_page_token value =
    if is_empty value
    then err empty_page_token
    else if ltb max_page_token_len (len value)
    then err (page_token_too_long (len value))
    else if any is_control value
    then err invalid_page_token
    else ok value

-- `PageSize::new`
unfoldable pub new_page_size : ℕ → Result MailboxContractError ℕ
new_page_size value = if not (in_range 1 500 value) then err (invalid_page_size value) else ok value

-- `StoreLimit::new`
unfoldable pub new_store_limit : ℕ → Result MailboxContractError ℕ
new_store_limit value =
    if not (in_range 1 max_store_limit value) then err (invalid_store_limit value) else ok value

pub record Page {ℓ} (T : Type ℓ) : Type ℓ where
  pub items : List T
  pub next_token : Option Text

pub data RemoteMailboxError : Type 0 where
  authorization_required : RemoteMailboxError
  rate_limited : RemoteMailboxError
  not_found : RemoteMailboxError
  transport : RemoteMailboxError
  invalid_response : RemoteMailboxError

pub data MailboxStoreError : Type 0 where
  storage : MailboxStoreError
  corrupted : MailboxStoreError
  identity_changed : MailboxStoreError
  identity_raced : MailboxStoreError
