-- ===== src/Store/Connection.antt =====
-- adapters/store-sqlcipher/src/lib.rs: the locked connection, statements and transactions. A
-- statement succeeds or fails as a schedule says, which stands for all that SQLite may do; a
-- transaction that is not committed is rolled back.
pub mod Laws
use tersa_app.Prelude.{Bool, true, false, Option, none, some, List, [], ◌∷◌, if◌then◌else◌}
use tersa_app.Prelude.Result.{Result, ok, err}
use tersa_app.Prelude.Action.{Action, pure, raise, ◌>>=◌, ◌>>◌, on_result}
use tersa_app.Prelude.Text.{Text, text_eq}
use tersa_app.Application.Mailbox.{MailboxStoreError, storage, corrupted}
use tersa_app.Store.Schema.{Db}

-- the cases of `rusqlite::Error` that the source tells apart
pub data SqlFailure : Type 0 where
  database_corrupt : SqlFailure
  not_a_database : SqlFailure
  other_failure : SqlFailure

unfoldable pub store_error : SqlFailure → MailboxStoreError
store_error database_corrupt = corrupted
store_error not_a_database = corrupted
store_error other_failure = storage

-- `SqlCipherMailboxStore`: the account it was opened for and the connection behind its lock
pub record Store : Type 0 where
  pub account : Text
  pub db : Db
  pub faults : List (Option SqlFailure)
  pub poisoned : Bool

unfoldable pub checked_account : Text → Action Store MailboxStoreError (Unit {0})
checked_account account s = (if text_eq s.account account then ok tt else err storage, s)

-- One statement: it answers and changes the tables, or fails and leaves them alone.
abbrev pub run_statement :
    {A : Type 0} → (Db → A × Db) → List (Option SqlFailure) → Action Store MailboxStoreError A
run_statement f [] s = let (a, d) = f s.db in (ok a, record s { db = d })
run_statement f (none ∷ rest) s = let (a, d) = f s.db in (ok a, record s { db = d; faults = rest })
run_statement f (some e ∷ rest) s = (err (store_error e), record s { faults = rest })

unfoldable pub statement : {A : Type 0} → (Db → A × Db) → Action Store MailboxStoreError A
statement f s = run_statement f s.faults s

-- a statement that only reads
abbrev pub query : {A : Type 0} → (Db → A) → Action Store MailboxStoreError A
query f = statement (λ d. (f d, d))

-- a statement that only writes
abbrev pub execute : (Db → Db) → Action Store MailboxStoreError (Unit {0})
execute f = statement (λ d. (tt, f d))

-- what follows the body of a transaction: `commit`, or the rollback of a dropped one
unfoldable pub finish :
    {A : Type 0} → Db → Result MailboxStoreError A → Action Store MailboxStoreError A
unfolding statement
finish before (err e) s = (err e, record s { db = before })
finish before (ok a) s =
    on_result (execute (λ d. d)) (λ _. pure a) (λ e s'. (err e, record s' { db = before })) s

-- `connection.transaction()` or `transaction_with_behavior(Immediate)`, the body, `commit()`
unfoldable pub transaction :
    {A : Type 0} → Action Store MailboxStoreError A → Action Store MailboxStoreError A
unfolding finish
transaction body = do execute (λ d. d); (λ s. let (r, s') = body s in finish s.db r s')

-- `with_connection`: a poisoned lock fails
unfoldable pub with_connection :
    {A : Type 0} → Action Store MailboxStoreError A → Action Store MailboxStoreError A
with_connection operation s = if s.poisoned then (err storage, s) else operation s
