-- ===== src/Base/Table.antt =====
-- Tables of rows with a numeric primary key, as the session sees them.
use Prim.Native.Nat.{ℕ}
use mathlib.Core.Path.{◌≡◌, refl}
use mathlib.Core.Logic.{◌≢◌}
use mathlib.Core.List.{List, [], ◌∷◌}
use mathlib.Core.Option.{Option, none, some}
use native.Mathlib.Omega.{arith}
use mathlib.Core.Path.{subst}
use mathlib.Core.Logic.{inl, inr}
use adam_abundance.Base.Lists.{All}
use adam_abundance.Base.Tests.{Bool-cases, ◌==◌, if◌then◌else◌}

pub record Keyed (A : Type 0) : Type 0 where
  pub key : A → ℕ

module _ {A : Type 0} ⦃k : Keyed A⦄ where
  -- `select(T).where(T.id == id)`, `session.get(T, id)`
  abbrev pub find : ℕ → List A → Option A
  find i [] = none
  find i (r ∷ rs) = if k.key r == i then some r else find i rs

  -- writes the changed row back in its place
  abbrev pub put : ℕ → A → List A → List A
  put i r' [] = []
  put i r' (r ∷ rs) = if k.key r == i then r' ∷ rs else r ∷ put i r' rs

  pub find-put_self :
      (i : ℕ) (r old : A) (rs : List A)
      → find i rs ≡ some old
      → k.key r ≡ i
      → find i (put i r rs) ≡ some r
  find-put_self i r old [] h e = ground arith
  find-put_self i r old (x ∷ rs) h e = ground (arith, find-put_self i r old rs)

  pub find-put_ne :
      (i j : ℕ) (r : A) (rs : List A) → i ≢ j → k.key r ≡ i → find j (put i r rs) ≡ find j rs
  find-put_ne i j r [] h e = refl
  find-put_ne i j r (x ∷ rs) h e = ground (arith, find-put_ne i j r rs)

  pub key-find : (i : ℕ) (r : A) (rs : List A) → find i rs ≡ some r → k.key r ≡ i
  key-find i r [] h = ground arith
  key-find i r (x ∷ rs) h = ground (arith, key-find i r rs)

  -- The same, with the row written back under its own key.
  pub find-put_key :
      (i : ℕ) (r old : A) (rs : List A)
      → find i rs ≡ some old
      → k.key r ≡ i
      → find i (put (k.key r) r rs) ≡ some r
  find-put_key i r old rs h e = rw e (find-put_self i r old rs h e)

  pub find-put_key_ne :
      (i j : ℕ) (r : A) (rs : List A)
      → i ≢ j
      → k.key r ≡ i
      → find j (put (k.key r) r rs) ≡ find j rs
  find-put_key_ne i j r rs h e = rw e (find-put_ne i j r rs h e)

  pub same_row : (x r : A) → some x ≡ some r → x ≡ r
  same_row x r e = cc

  module _ {ℓ} (P : A → Type ℓ) where
    pub All-find : (i : ℕ) (r : A) (rs : List A) → All P rs → find i rs ≡ some r → P r
    All-find i r [] h e = ground arith
    All-find i r (x ∷ rs) h e = elim (Bool-cases (k.key x == i)) [
      | inl b ↦ subst P (same_row x r (rw b at e)) h.0
      | inr b ↦ All-find i r rs h.1 (rw b at e)
    ]

    pub All-put : (i : ℕ) (r : A) (rs : List A) → P r → All P rs → All P (put i r rs)
    All-put i r [] p h = tt
    All-put i r (x ∷ rs) p h = elim (Bool-cases (k.key x == i)) [
      | inl b ↦ rw b (p, h.1)
      | inr b ↦ rw b (h.0, All-put i r rs p h.1)
    ]
