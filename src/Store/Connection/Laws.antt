-- ===== src/Store/Connection/Laws.antt =====
-- What statements and transactions promise, whatever SQLite does: atomicity, and the rules by which
-- an operation is shown to implement a function on the tables.
use tersa_app.Prelude.{◌≡◌, refl, false, List, [], ◌∷◌, arith}
use tersa_app.Prelude.Result.{Result, ok, err}
use tersa_app.Prelude.Action.{Action, ◌>>=◌, continue, raise, lift}
use tersa_app.Application.Mailbox.{MailboxStoreError}
use tersa_app.Store.Schema.{Db}
use tersa_app.Store.Connection.{Store, statement, transaction, with_connection}

-- An operation that fails leaves every table as it was.
abbrev pub IsAtomic : {A : Type 0} → Action Store MailboxStoreError A → Type 0
IsAtomic m = (s : Store) (e : MailboxStoreError) → (m s).0 ≡ err e → (m s).1.db ≡ s.db

-- What an operation means: an error, or an answer and the new tables.
abbrev pub Meaning : Type 0 → Type 0
Meaning A = Db → Result MailboxStoreError (A × Db)

abbrev pub then_ :
    {A B : Type 0}
    → (A → Meaning B)
    → Result MailboxStoreError (A × Db)
    → Result MailboxStoreError (B × Db)
then_ g (ok (a, d)) = g a d
then_ g (err e) = err e

abbrev pub answer : {A : Type 0} → Result MailboxStoreError A → Meaning A
answer (ok a) d = ok (a, d)
answer (err e) d = err e

-- `m` does what `f` says: where it succeeds, `f` gives that answer and those tables; and where no
-- statement fails it succeeds as soon as `f` does.
pub record Implements {A : Type 0} (m : Action Store MailboxStoreError A) (f : Meaning A)
    : Type 0 where
  pub sound : (s : Store) (a : A) → (m s).0 ≡ ok a → f s.db ≡ ok (a, (m s).1.db)
  pub complete :
      (s : Store) (a : A) (d : Db)
      → s.faults ≡ []
      → s.poisoned ≡ false
      → f s.db ≡ ok (a, d)
      → m s ≡ (ok a, record s { db = d })

module _ {A : Type 0} where
  pub statement-IsAtomic : (f : Db → A × Db) → IsAtomic (statement f)
  unfolding statement
  statement-IsAtomic f s e h = ground arith

  pub transaction-IsAtomic : (body : Action Store MailboxStoreError A) → IsAtomic (transaction body)
  unfolding transaction
  transaction-IsAtomic body s e h = ground arith

  pub connection-IsAtomic :
      (m : Action Store MailboxStoreError A) → IsAtomic m → IsAtomic (with_connection m)
  unfolding with_connection
  connection-IsAtomic m atomic s e h = ground (arith, atomic s e)

  pub statement-Implements : (f : Db → A × Db) → Implements (statement f) (λ d. ok (f d))
  unfolding statement
  statement-Implements f = record {
    sound = λ s a h. ground arith;
    complete = λ s a d nf np h. ground arith;
  }

  pub lift-Implements : (r : Result MailboxStoreError A) → Implements (lift r) (answer r)
  lift-Implements r = record {
    sound = λ s a h. ground arith;
    complete = λ s a d nf np h. ground arith;
  }

  abbrev tail : List A → List A
  tail [] = []
  tail (x ∷ xs) = xs

module _ {A : Type 0} (m : Action Store MailboxStoreError A) (f : Meaning A)
    (i : Implements m f) where
  pub transaction-Implements : Implements (transaction m) f
  unfolding transaction
  transaction-Implements = record {
    sound = λ s a h. ground (arith, i.sound s a, i.sound (record s { faults = tail s.faults }) a);
    complete = λ s a d nf np h. ground (arith, i.complete s a d nf np h);
  }

  pub connection-Implements : Implements (with_connection m) f
  unfolding with_connection
  connection-Implements = record {
    sound = λ s a h. ground (arith, i.sound s a);
    complete = λ s a d nf np h. ground (arith, i.complete s a d nf np h);
  }

  -- the meaning may be replaced by an equal one
  pub Implements-eq : (g : Meaning A) → ((d : Db) → f d ≡ g d) → Implements m g
  Implements-eq g e = record {
    sound = λ s a h. ground (arith, e s.db, i.sound s a);
    complete = λ s a d nf np h. ground (arith, e s.db, i.complete s a d);
  }

module _ {A B : Type 0} where
  pub bind-Implements :
      (m : Action Store MailboxStoreError A) (k : A → Action Store MailboxStoreError B)
      (f : Meaning A) (g : A → Meaning B)
      → Implements m f
      → ((a : A) → Implements (k a) (g a))
      → Implements (m >>= k) (λ d. then_ g (f d))
  bind-Implements m k f g im ik = record {
    sound = λ s b h. bound s b (m s).0 (m s).1 refl h;
    complete = λ s b d nf np h. all_through s b d nf np (f s.db) refl h;
  }
    where
      bound :
          (s : Store) (b : B) (r : Result MailboxStoreError A) (s' : Store)
          → m s ≡ (r, s')
          → (continue k raise r s').0 ≡ ok b
          → then_ g (f s.db) ≡ ok (b, (continue k raise r s').1.db)
      bound s b (ok a) s' e h = ground (arith, im.sound s a, (ik a).sound s' b)
      bound s b (err x) s' e h = cc

      all_through :
          (s : Store) (b : B) (d : Db)
          → s.faults ≡ []
          → s.poisoned ≡ false
          → (r : Result MailboxStoreError (A × Db)) → f s.db ≡ r
          → then_ g r ≡ ok (b, d)
          → (m >>= k) s ≡ (ok b, record s { db = d })
      all_through s b d nf np (ok (a, d')) e h =
          ground (arith, im.complete s a d', (ik a).complete (record s { db = d' }) b d)
      all_through s b d nf np (err x) e h = cc
