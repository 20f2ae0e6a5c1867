-- ===== src/Scout/Reset.antt =====
-- Resetting the weights.
use adam_abundance.Base.{
  ℕ, ◌≡◌, refl, sym, ap, ◌∙◌, String, Bool, true, false, Option, none, some, List, [], ◌∷◌, not,
  ◌&&◌, all, str_eq, arith, inl, inr, Bool-cases, All, ℤ,
}
use adam_abundance.Scout.Weights.{
  Weights, default_score_weights, lookup, TrendScoreWeight, Raw, number, latest, load_overrides,
  load_effective, asked, save_weights, defaults_form, reset_weights, resolved, override_of,
}
use adam_abundance.Scout.Tuning.{first_of, asked_in, Distinct, effective-latest, save_weights_lem}

-- Asked for as they are, the weights come through.
abbrev Reachable : Weights → Type 0
Reachable ws = All (λ w. asked w.0 (number (ℤ.pos w.1)) ≡ some w.1) ws

asked_in-defaults_form :
    (ws : Weights) (k : String) → Reachable ws → asked_in (defaults_form ws) k ≡ lookup k ws
asked_in-defaults_form [] k h = refl
asked_in-defaults_form ((j, d) ∷ ws) k h = rw (h.0, asked_in-defaults_form ws k h.1) refl

defaults-Reachable : Reachable default_score_weights
unfolding asked
defaults-Reachable = (
  refl,
  (
    refl,
    (
      refl,
      (refl, (refl, (refl, (refl, (refl, (refl, (refl, (refl, (refl, (refl, (refl, tt))))))))))),
    ),
  ),
)

-- `Distinct` as a test.
abbrev are_distinct : List (String × Raw) → Bool
are_distinct [] = true
are_distinct (e ∷ values) = all (λ f. not (str_eq f.0 e.0)) values && are_distinct values

apart :
    (k : String) (values : List (String × Raw)) (b : Bool)
    → (all (λ f. not (str_eq f.0 k)) values && b) ≡ true
    → All (λ f. str_eq f.0 k ≡ false) values × (b ≡ true)
apart k [] b h = (tt, h)
apart k (f ∷ values) b h = elim (Bool-cases (str_eq f.0 k)) [
  | inl e ↦ absurd (no_truth (rw e at h))
  | inr e ↦ let (x, y) = apart k values b (rw e at h) in ((e, x), y)
]
  where
    no_truth : false ≡ true → ⊥
    no_truth q = cc

are_distinct-Distinct :
    (values : List (String × Raw)) → are_distinct values ≡ true → Distinct values
are_distinct-Distinct [] h = tt
are_distinct-Distinct (e ∷ values) h =
    let (x, y) = apart e.0 values (are_distinct values) h in (x, are_distinct-Distinct values y)

defaults-Distinct : Distinct (defaults_form default_score_weights)
defaults-Distinct = are_distinct-Distinct (defaults_form default_score_weights) refl

first_of-resolved : (d l : Option ℕ) → first_of d (resolved d l) ≡ d
first_of-resolved none l = refl
first_of-resolved (some d) l = refl

none_overridden : (d l : Option ℕ) → resolved d l ≡ d → override_of d l ≡ none
none_overridden none l h = refl
none_overridden (some d) none h = refl
none_overridden (some d) (some v) h = ground arith

-- After a reset every weight is the default again, and no key counts as overridden.
pub reset_weights_lem :
    (by : Option String) (rows : List TrendScoreWeight) (k : String)
    → (load_effective (reset_weights by rows).1 k ≡ lookup k default_score_weights)
      × (load_overrides (reset_weights by rows).1 k ≡ none)
unfolding reset_weights load_overrides
reset_weights_lem by rows k =
    let rows' = (save_weights (defaults_form default_score_weights) by rows).1 in
    let e : load_effective rows' k ≡ lookup k default_score_weights =
      save_weights_lem (defaults_form default_score_weights) by rows k defaults-Distinct
      ∙ ap (λ x. first_of x (load_effective rows k))
          (asked_in-defaults_form default_score_weights k defaults-Reachable)
      ∙ ap (first_of (lookup k default_score_weights)) (effective-latest rows k)
      ∙ first_of-resolved (lookup k default_score_weights) (latest k rows) in
    (
      e,
      none_overridden (lookup k default_score_weights) (latest k rows')
          (sym (effective-latest rows' k) ∙ e),
    )
