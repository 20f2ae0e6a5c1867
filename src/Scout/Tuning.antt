-- ===== src/Scout/Tuning.antt =====
-- Saving the weights.
use mathlib.Core.Path.{subst}
use adam_abundance.Base.{
  ℕ, ◌≡◌, refl, sym, ap, ◌∙◌, String, Bool, true, false, Option, none, some, List, [], ◌∷◌, ◌++◌,
  ◌==◌, str_eq, eq_iff, eq_refl, if◌then◌else◌, or_else, arith, inl, inr, Bool-cases, Option-cases,
  All,
}
use adam_abundance.Scout.Weights.{
  default_score_weights, lookup, TrendScoreWeight, Raw, latest, load_effective, asked, asked_of,
  is_current, one_row, new_rows, save_weights, resolved, override_of,
}

-- `a or b` of two optional values.
abbrev pub first_of : Option ℕ → Option ℕ → Option ℕ
first_of none b = b
first_of (some a) b = some a

latest-append :
    (k : String) (rs ts : List TrendScoreWeight)
    → latest k (rs ++ ts) ≡ first_of (latest k ts) (latest k rs)
latest-append k [] ts = elim (Option-cases (latest k ts)) [
  | inl e ↦ rw e refl
  | inr (v, e) ↦ rw e refl
]
latest-append k (r ∷ rs) ts = elim (Option-cases (latest k ts)) [
  | inl e ↦ rw (latest-append k rs ts, e) refl
  | inr (v, e) ↦ rw (latest-append k rs ts, e) refl
]

equal : (m n : ℕ) → (m == n) ≡ true → m ≡ n
equal m n h = ground arith

kept_value :
    (b : Bool) (v d : ℕ)
    → (b ≡ true → v ≡ d)
    → resolved (some d) (if b then none else some v) ≡ some v
kept_value true v d h = ap (λ (x : ℕ). some x) (sym (h refl))
kept_value false v d h = refl

-- The weight in force is the last row's, or the default.
pub effective-latest :
    (rows : List TrendScoreWeight) (k : String)
    → load_effective rows k ≡ resolved (lookup k default_score_weights) (latest k rows)
unfolding load_effective
effective-latest rows k = by_default (lookup k default_score_weights) (latest k rows)
  where
    by_default : (d v : Option ℕ) → resolved d (override_of d v) ≡ resolved d v
    by_default none v = refl
    by_default (some d) none = refl
    by_default (some d) (some v) = kept_value (v == d) v d (equal v d)

-- What a form asks for a key.
abbrev pub asked_in : List (String × Raw) → String → Option ℕ
asked_in [] k = none
asked_in ((j, raw) ∷ values) k =
    let rest = asked_in values k in if str_eq j k then asked j raw else rest

-- No key stands twice in a form.
abbrev pub Distinct : List (String × Raw) → Type 0
Distinct [] = Unit
Distinct (e ∷ values) = All (λ f. str_eq f.0 e.0 ≡ false) values × Distinct values

-- What a save writes for a key.
abbrev pub changed : Option ℕ → Option ℕ → Option ℕ
changed current none = none
changed current (some v) = if is_current current v then none else some v

absent :
    (k : String) (values : List (String × Raw))
    → All (λ f. str_eq f.0 k ≡ false) values
    → asked_in values k ≡ none
absent k [] h = refl
absent k ((j, raw) ∷ values) h = rw h.0 (absent k values h.1)

asked_in-unknown :
    (k : String) (values : List (String × Raw))
    → lookup k default_score_weights ≡ none
    → asked_in values k ≡ none
unfolding asked
asked_in-unknown k [] h = refl
asked_in-unknown k ((j, raw) ∷ values) h = elim (Bool-cases (str_eq j k)) [
  | inl e ↦ rw e (
      subst (λ x. asked_of x (lookup x default_score_weights) raw ≡ none) (sym ((eq_iff j k).0 e))
        (ap (λ d. asked_of k d raw) h))
  | inr e ↦ rw e (asked_in-unknown k values h)
]

module _ (current : String → Option ℕ) (by : Option String) (k : String) where
  latest-one_row : (a : Option ℕ) → latest k (one_row current k by a) ≡ changed (current k) a
  latest-one_row none = refl
  latest-one_row (some v) = elim (Bool-cases (is_current (current k) v)) [
    | inl e ↦ rw e refl
    | inr e ↦ rw (e, eq_refl k) refl
  ]

  latest-one_row_ne :
      (j : String) (a : Option ℕ) → str_eq j k ≡ false → latest k (one_row current j by a) ≡ none
  latest-one_row_ne j none h = refl
  latest-one_row_ne j (some v) h = elim (Bool-cases (is_current (current j) v)) [
    | inl e ↦ rw e refl
    | inr e ↦ rw (e, h) refl
  ]

  first_of-none : (a : Option ℕ) → first_of a none ≡ a
  first_of-none none = refl
  first_of-none (some v) = refl

  latest-new_rows :
      (values : List (String × Raw))
      → Distinct values
      → latest k (new_rows current by values) ≡ changed (current k) (asked_in values k)
  unfolding new_rows
  latest-new_rows [] d = refl
  latest-new_rows ((j, raw) ∷ values) d =
      let rest = new_rows current by values in
      let row = one_row current j by (asked j raw) in
      let ih = latest-new_rows values d.1 in
      latest-append k row rest ∙ elim (Bool-cases (str_eq j k)) [
        | inl e ↦
            let same : j ≡ k = (eq_iff j k).0 e in
            let alone : All (λ f. str_eq f.0 k ≡ false) values =
              subst (λ x. All (λ f. str_eq f.0 x ≡ false) values) same d.0 in
            let here : latest k (one_row current j by (asked j raw))
                ≡ changed (current k) (asked j raw) =
              subst
                (λ x.
                  latest k (one_row current x by (asked j raw)) ≡ changed (current k) (asked j raw))
                (sym same) (latest-one_row (asked j raw)) in
            rw (e, ih, absent k values alone) here
        | inr e ↦ rw (e, latest-one_row_ne j (asked j raw) e) (first_of-none (latest k rest) ∙ ih)
      ]

-- `a` where it is given, and else `b`.
saved_over :
    (l d a : Option ℕ)
    → (d ≡ none → a ≡ none)
    → resolved d (first_of (changed (resolved d l) a) l) ≡ first_of a (resolved d l)
saved_over l none a h = rw (h refl) refl
saved_over l (some d) none h = refl
saved_over l (some d) (some v) h = elim (Bool-cases (or_else l d == v)) [
  | inl e ↦ rw e (ap (λ (x : ℕ). some x) (equal (or_else l d) v e))
  | inr e ↦ rw e refl
]

-- After a save every weight in force is what the form asked for it, and where the form asks nothing
-- for a key (missing, unreadable or unknown), what it was.
pub save_weights_lem :
    (values : List (String × Raw)) (by : Option String) (rows : List TrendScoreWeight) (k : String)
    → Distinct values
    → load_effective (save_weights values by rows).1 k
      ≡ first_of (asked_in values k) (load_effective rows k)
unfolding save_weights
save_weights_lem values by rows k h =
    let d = lookup k default_score_weights in
    let new = new_rows (load_effective rows) by values in
    let written =
      latest-append k rows new
      ∙ ap (λ x. first_of x (latest k rows))
          (latest-new_rows (load_effective rows) by k values h) in
    effective-latest (rows ++ new) k
    ∙ rw (written, effective-latest rows k)
        (saved_over (latest k rows) d (asked_in values k) (asked_in-unknown k values))
