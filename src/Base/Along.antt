-- ===== src/Base/Along.antt =====
-- Actions that move the state along a preorder, whether they return or raise.
use mathlib.Core.Path.{◌≡◌, refl}
use mathlib.Core.Bool.{Bool, true, false}
use adam_abundance.Base.Actions.{Result, ok, err, Exec, pure, gets, raise_if, continue, ◌>>=◌}

pub record Preorder {S : Type 0} (R : S → S → Type 0) : Type 0 where
  pub same : (s : S) → R s s
  pub then : (a b c : S) → R a b → R b c → R a c

-- The state in which `m` ends, returning or raising, is related to the one in which it began.
abbrev pub Along : {S E A : Type 0} → (S → S → Type 0) → Exec S E A → Type 0
Along {S} R m = (s : S) → R s (m s).1

module _ {S E : Type 0} {R : S → S → Type 0} (p : Preorder R) where
  pub Along-raise_if : (b : Bool) (e : E) → Along {E = E} R (raise_if b e)
  Along-raise_if true e s = p.same s
  Along-raise_if false e s = p.same s

  module _ {A B : Type 0} where
    continue-Along :
        (s0 : S) (r : Result E A) (s : S) (f : A → Exec S E B)
        → R s0 s
        → ((a : A) → r ≡ ok a → R s (f a s).1)
        → R s0 (continue r f s).1
    continue-Along s0 (ok a) s f h k = p.then s0 s (f a s).1 h (k a refl)
    continue-Along s0 (err e) s f h k = h

    -- The rest of the block may use what the first action returned, and from where.
    pub Along-bind_at :
        (m : Exec S E A) (f : A → Exec S E B) (s : S)
        → R s (m s).1
        → ((a : A) → (m s).0 ≡ ok a → R (m s).1 (f a (m s).1).1)
        → R s ((m >>= f) s).1
    Along-bind_at m f s h k = continue-Along s (m s).0 (m s).1 f h k

    pub Along-bind :
        (m : Exec S E A) (f : A → Exec S E B)
        → Along R m
        → ((a : A) → Along R (f a))
        → Along R (m >>= f)
    Along-bind m f h k s = Along-bind_at m f s (h s) (λ a _. k a (m s).1)

-- The same as a record, in which a bind stays written as one.
pub record Keeps {S E A : Type 0} (R : S → S → Type 0) (m : Exec S E A) : Type 0 where
  pub along : Along R m

module _ {S E : Type 0} {R : S → S → Type 0} (p : Preorder R) where
  pub Keeps-bind :
      {A B : Type 0} {m : Exec S E A} {f : A → Exec S E B}
      → Keeps R m
      → ((a : A) → Keeps R (f a))
      → Keeps R (m >>= f)
  Keeps-bind {A} {B} {m} {f} h k = record { along = Along-bind p m f h.along (λ a. (k a).along) }

  pub Keeps-gets : {A : Type 0} (f : S → A) → Keeps {E = E} R (gets f)
  Keeps-gets f = record { along = p.same }

  pub Keeps-pure : {A : Type 0} (a : A) → Keeps {E = E} R (pure a)
  Keeps-pure a = record { along = p.same }
