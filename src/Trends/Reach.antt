-- ===== src/Trends/Reach.antt =====
-- Chains of allowed moves, and tables whose rows each follow such chains.
use adam_abundance.Base.{
  ℕ, ◌≡◌, refl, Bool, true, some, List, [], ◌∷◌, ◌++◌, map, Bool-cases, inl, inr, ◌==◌,
}
use adam_abundance.Base.Along.{Preorder}
use adam_abundance.Base.Table.{Keyed, find, put, same_row}

-- From one status to another by moves of the table, none or several.
pub data Reach {A : Type 0} (may : A → A → Bool) (a : A) : A → Type 0 where
  stay : Reach may a a
  move : {b c : A} → Reach may a b → may b c ≡ true → Reach may a c

module _ {A : Type 0} {may : A → A → Bool} where
  pub Reach-trans : {a b c : A} → Reach may a b → Reach may b c → Reach may a c
  Reach-trans p stay = p
  Reach-trans p (move q h) = move (Reach-trans p q) h

  -- What has no move away is where every chain from it ends.
  pub Reach-stuck : {a b : A} → ((c : A) → may a c ≡ true → c ≡ a) → Reach may a b → b ≡ a
  Reach-stuck h stay = refl
  Reach-stuck {a} h (move {b} {c} p q) = h c (rw (Reach-stuck h p) at q)

-- Every old row is still there, in its place and related to what it was; there may be new ones.
module _ {A : Type 0} where
  abbrev pub Evolves : (A → A → Type 0) → List A → List A → Type 0
  Evolves R [] ys = Unit
  Evolves R (x ∷ xs) [] = ⊥
  Evolves R (x ∷ xs) (y ∷ ys) = R x y × Evolves R xs ys

  module _ {R : A → A → Type 0} (p : Preorder R) where
    pub Evolves-refl : (xs : List A) → Evolves R xs xs
    Evolves-refl [] = tt
    Evolves-refl (x ∷ xs) = (p.same x, Evolves-refl xs)

    pub Evolves-trans : (xs ys zs : List A) → Evolves R xs ys → Evolves R ys zs → Evolves R xs zs
    Evolves-trans [] ys zs h k = tt
    Evolves-trans (x ∷ xs) [] zs h k = absurd h
    Evolves-trans (x ∷ xs) (y ∷ ys) [] h k = absurd k
    Evolves-trans (x ∷ xs) (y ∷ ys) (z ∷ zs) h k =
        (p.then x y z h.0 k.0, Evolves-trans xs ys zs h.1 k.1)

    pub Evolves-append : (xs ys : List A) → Evolves R xs (xs ++ ys)
    Evolves-append [] ys = tt
    Evolves-append (x ∷ xs) ys = (p.same x, Evolves-append xs ys)

    pub Evolves-map : (f : A → A) (xs : List A) → ((x : A) → R x (f x)) → Evolves R xs (map f xs)
    Evolves-map f [] h = tt
    Evolves-map f (x ∷ xs) h = (h x, Evolves-map f xs h)

    pub Evolves-put :
        ⦃k : Keyed A⦄ (i : ℕ) (r r' : A) (xs : List A)
        → find i xs ≡ some r
        → R r r'
        → Evolves R xs (put i r' xs)
    Evolves-put ⦃k⦄ i r r' [] e h = tt
    Evolves-put ⦃k⦄ i r r' (x ∷ xs) e h = elim (Bool-cases (k.key x == i)) [
      | inl b ↦ rw b (rw (same_row x r (rw b at e)) h, Evolves-refl xs)
      | inr b ↦ rw b (p.same x, Evolves-put i r r' xs (rw b at e) h)
    ]
