-- ===== src/Base/Actions.antt =====
-- A method of a repository: it reads and writes the session's rows and may raise. What was written
-- before a raise stays written until the transaction is rolled back, so the state comes back
-- beside the error.
use mathlib.Core.Path.{◌≡◌, refl, ap}
use mathlib.Core.Bool.{Bool, true, false}

pub data Result (E : Type 0) (A : Type 0) : Type 0 where
  ok : A → Result E A
  err : E → Result E A

abbrev pub Exec : Type 0 → Type 0 → Type 0 → Type 0
Exec S E A = S → Result E A × S

module _ {S E A : Type 0} where
  abbrev pub pure : A → Exec S E A
  pure a s = (ok a, s)

  abbrev pub raise : E → Exec S E A
  raise e s = (err e, s)

  abbrev pub gets : (S → A) → Exec S E A
  gets f s = (ok (f s), s)

module _ {S E : Type 0} where
  abbrev pub modify : (S → S) → Exec S E (Unit {0})
  modify f s = (ok tt, f s)

  abbrev pub raise_if : Bool → E → Exec S E (Unit {0})
  raise_if true e s = (err e, s)
  raise_if false e s = (ok tt, s)

module _ {S E A B : Type 0} where
  infixl 5 ◌>>=◌ ◌>>◌
  abbrev pub continue : Result E A → (A → Exec S E B) → Exec S E B
  continue (ok a) f s = f a s
  continue (err e) f s = (err e, s)

  abbrev pub ◌>>=◌ : Exec S E A → (A → Exec S E B) → Exec S E B
  ◌>>=◌ m f s = let (r, s') = m s in continue r f s'

  abbrev pub ◌>>◌ : Exec S E A → Exec S E B → Exec S E B
  m >> n = m >>= λ _. n

  -- A bind after an action that has returned.
  pub bind-ok :
      (m : Exec S E A) (f : A → Exec S E B) (s : S) (a : A)
      → (m s).0 ≡ ok a
      → (m >>= f) s ≡ f a (m s).1
  bind-ok m f s a h = ap (λ r. continue r f (m s).1) h

  -- Two binds are equal where their parts are, at the state and the value that reach them.
  pub bind-cong_left :
      (m m' : Exec S E A) (f : A → Exec S E B) (s : S) → m s ≡ m' s → (m >>= f) s ≡ (m' >>= f) s
  bind-cong_left m m' f s h = ap (λ r. continue r.0 f r.1) h

  continue-cong :
      (r : Result E A) (f f' : A → Exec S E B) (s : S)
      → ((a : A) → r ≡ ok a → f a s ≡ f' a s)
      → continue r f s ≡ continue r f' s
  continue-cong (ok a) f f' s h = h a refl
  continue-cong (err e) f f' s h = refl

  pub bind-cong_right :
      (m : Exec S E A) (f f' : A → Exec S E B) (s : S)
      → ((a : A) → (m s).0 ≡ ok a → f a (m s).1 ≡ f' a (m s).1)
      → (m >>= f) s ≡ (m >>= f') s
  bind-cong_right m f f' s h = continue-cong (m s).0 f f' (m s).1 h

  continue-inv :
      (r : Result E A) (f : A → Exec S E B) (s : S) (b : B)
      → (continue r f s).0 ≡ ok b
      → (a : A) × (r ≡ ok a) × ((f a s).0 ≡ ok b)
  continue-inv (ok a) f s b h = (a, refl, h)
  continue-inv (err e) f s b h = cc

  -- A bind that has returned: its first part has returned, and the rest from there.
  pub bind-inv :
      (m : Exec S E A) (f : A → Exec S E B) (s : S) (b : B)
      → ((m >>= f) s).0 ≡ ok b
      → (a : A) × ((m s).0 ≡ ok a) × ((f a (m s).1).0 ≡ ok b)
  bind-inv m f s b h = continue-inv (m s).0 f (m s).1 b h
