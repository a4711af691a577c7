-- ===== src/Store/Binding/Tokens.antt =====
-- What is stored in the binding row is what is read back.
use tersa_app.Prelude.{◌≡◌, none, some, [], arith}
use tersa_app.Prelude.Result.{ok}
use tersa_app.Prelude.Text.{Text}
use tersa_app.Domain.Mailbox.{AccountId}
use tersa_app.Store.Connection.{Store, statement, with_connection}
use tersa_app.Store.Binding.{
  store_refresh_token, clear_refresh_token, load_refresh_token, store_broker_subject,
  load_broker_subject,
}

-- the same connection, with no statement failing from here on
abbrev pub calm : Store → Store
calm s = record s { faults = [] }

-- After a refresh token was stored, a read that no statement fails gives back that token.
pub load-store_refresh_token :
    (account : AccountId) (token : Text) (s : Store)
    → (store_refresh_token account token s).0 ≡ ok tt
    → (load_refresh_token account (calm (store_refresh_token account token s).1)).0
      ≡ ok (some token)
unfolding store_refresh_token load_refresh_token with_connection statement
load-store_refresh_token account token s h = ground arith

-- After the refresh token was cleared, a read that no statement fails gives none.
pub load-clear_refresh_token :
    (account : AccountId) (s : Store)
    → (clear_refresh_token account s).0 ≡ ok tt
    → (load_refresh_token account (calm (clear_refresh_token account s).1)).0 ≡ ok none
unfolding clear_refresh_token load_refresh_token with_connection statement
load-clear_refresh_token account s h = ground arith

-- After a broker subject was stored, a read that no statement fails gives back that subject, and
-- the stored refresh token reads as before.
pub load-store_broker_subject :
    (account : AccountId) (subject : Text) (s : Store)
    → (store_broker_subject account subject s).0 ≡ ok tt
    → let s' = (store_broker_subject account subject s).1 in
      ((load_broker_subject account (calm s')).0 ≡ ok (some subject))
      × ((load_refresh_token account (calm s')).0 ≡ (load_refresh_token account (calm s)).0)
unfolding store_broker_subject load_broker_subject load_refresh_token with_connection statement
load-store_broker_subject account subject s h = (ground arith, ground arith)
