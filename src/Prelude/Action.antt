-- ===== src/Prelude/Action.antt =====
-- Actions on a state that may fail: `async fn` and `&mut self` methods that return a `Result`.
-- What was written before an error stays written, so the state comes back beside the error too.
use tersa_app.Prelude.Result.{Result, ok, err}

abbrev pub Action {ℓ} : Type ℓ → Type ℓ → Type ℓ → Type ℓ
Action S E A = S → Result E A × S

module _ {ℓ} {S E A : Type ℓ} where
  abbrev pub pure : A → Action S E A
  pure a s = (ok a, s)

  abbrev pub raise : E → Action S E A
  raise e s = (err e, s)

  -- a computation that leaves the state alone
  abbrev pub lift : Result E A → Action S E A
  lift r s = (r, s)

module _ {ℓ} {S E F A B : Type ℓ} where
  abbrev pub continue : (A → Action S E B) → (F → Action S E B) → Result F A → Action S E B
  continue f g (ok a) s = f a s
  continue f g (err e) s = g e s

  -- `match m.await { Ok(a) => f(a), Err(e) => g(e) }`
  abbrev pub on_result : Action S F A → (A → Action S E B) → (F → Action S E B) → Action S E B
  on_result m f g s = let (r, s') = m s in continue f g r s'

  continue-Holds :
      (f : A → Action S E B) (g : F → Action S E B) (r : Result F A) (s : S)
      (Q : Result E B → Type ℓ)
      → ((a : A) (s' : S) → Q (f a s').0)
      → ((e : F) (s' : S) → Q (g e s').0)
      → Q (continue f g r s).0
  continue-Holds f g (ok a) s Q h k = h a s
  continue-Holds f g (err e) s Q h k = k e s

  -- what holds of both continuations holds of the whole
  pub on_result-Holds :
      (m : Action S F A) (f : A → Action S E B) (g : F → Action S E B) (s : S)
      (Q : Result E B → Type ℓ)
      → ((a : A) (s' : S) → Q (f a s').0)
      → ((e : F) (s' : S) → Q (g e s').0)
      → Q (on_result m f g s).0
  on_result-Holds m f g s Q h k = continue-Holds f g (m s).0 (m s).1 Q h k

module _ {ℓ} {S E A B : Type ℓ} where
  infixl 10 ◌>>=◌ ◌>>◌
  abbrev pub ◌>>=◌ : Action S E A → (A → Action S E B) → Action S E B
  m >>= f = on_result m f raise

  abbrev pub ◌>>◌ : Action S E A → Action S E B → Action S E B
  m >> k = m >>= λ _. k

  go_on-Holds :
      (f : A → Action S E B) (r : Result E A) (s : S) (P : Result E A → Type ℓ)
      (Q : Result E B → Type ℓ)
      → P r
      → ((a : A) (s' : S) → P (ok a) → Q (f a s').0)
      → ((e : E) → P (err e) → Q (err e))
      → Q (continue f raise r s).0
  go_on-Holds f (ok a) s P Q p h k = h a s p
  go_on-Holds f (err e) s P Q p h k = k e p

  -- what the first action ensures, the second one starts from
  pub >>=-Holds :
      (m : Action S E A) (f : A → Action S E B) (s : S) (P : Result E A → Type ℓ)
      (Q : Result E B → Type ℓ)
      → P (m s).0
      → ((a : A) (s' : S) → P (ok a) → Q (f a s').0)
      → ((e : E) → P (err e) → Q (err e))
      → Q ((m >>= f) s).0
  >>=-Holds m f s P Q p h k = go_on-Holds f (m s).0 (m s).1 P Q p h k

module _ {ℓ} {S E F A B : Type ℓ} where
  continue-Ends :
      (f : A → Action S E B) (g : F → Action S E B) (r : Result F A) (s : S)
      (P : Result F A → S → Type ℓ) (Q : Result E B → S → Type ℓ)
      → P r s
      → ((a : A) (s' : S) → P (ok a) s' → Q (f a s').0 (f a s').1)
      → ((e : F) (s' : S) → P (err e) s' → Q (g e s').0 (g e s').1)
      → Q (continue f g r s).0 (continue f g r s).1
  continue-Ends f g (ok a) s P Q p h k = h a s p
  continue-Ends f g (err e) s P Q p h k = k e s p

  -- how an action ends, state and all, from how the first part of it ends
  pub on_result-Ends :
      (m : Action S F A) (f : A → Action S E B) (g : F → Action S E B) (s : S)
      (P : Result F A → S → Type ℓ) (Q : Result E B → S → Type ℓ)
      → P (m s).0 (m s).1
      → ((a : A) (s' : S) → P (ok a) s' → Q (f a s').0 (f a s').1)
      → ((e : F) (s' : S) → P (err e) s' → Q (g e s').0 (g e s').1)
      → Q (on_result m f g s).0 (on_result m f g s).1
  on_result-Ends m f g s P Q p h k = continue-Ends f g (m s).0 (m s).1 P Q p h k
