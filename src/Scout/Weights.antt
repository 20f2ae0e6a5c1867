-- ===== src/Scout/Weights.antt =====
-- The weights of the trend score: the tables and `resolve_weights` of trends/detector.py, and
-- trends/weights.py. A weight is in ten-thousandths, to which the save rounds, so a difference of
-- less than 1e-9 is none. The rows stand in the order of `effective_at`.
use adam_abundance.Base.{
  ℕ, ◌*◌, String, Bool, false, Option, none, some, List, [], ◌∷◌, ◌++◌, map, length, min, max, ◌==◌,
  str_eq, if◌then◌else◌, or_else, ℤ,
}

abbrev one : ℕ
one = 10000

abbrev pub Weights : Type 0
Weights = List (String × ℕ)

abbrev pub default_score_weights : Weights
default_score_weights =
    ("corroboration_bonus", 15 * one)
    ∷ ("corroboration_max", 30 * one)
    ∷ ("novelty_max", 18 * one)
    ∷ ("saturation_penalty", 18 * one)
    ∷ ("fatigue_max", 15 * one)
    ∷ ("velocity_per_unit", 8 * one)
    ∷ ("velocity_max", 16 * one)
    ∷ ("watchlist", 15 * one)
    ∷ ("coverage_gap_uncovered", 15 * one)
    ∷ ("coverage_gap_unknown", 8 * one)
    ∷ ("breaking", 12 * one)
    ∷ ("stale_penalty", 10 * one)
    ∷ ("brand_demand", 14 * one)
    ∷ ("sat_outlets", 5 * one)
    ∷ []

-- `min` and `max` of SCORE_WEIGHT_META, by key
abbrev pub ranges : List (String × ℕ × ℕ)
ranges =
    ("corroboration_bonus", 0, 40 * one)
    ∷ ("corroboration_max", 0, 60 * one)
    ∷ ("novelty_max", 0, 40 * one)
    ∷ ("saturation_penalty", 0, 40 * one)
    ∷ ("fatigue_max", 0, 40 * one)
    ∷ ("velocity_per_unit", 0, 30 * one)
    ∷ ("velocity_max", 0, 40 * one)
    ∷ ("watchlist", 0, 40 * one)
    ∷ ("coverage_gap_uncovered", 0, 40 * one)
    ∷ ("coverage_gap_unknown", 0, 40 * one)
    ∷ ("breaking", 0, 40 * one)
    ∷ ("stale_penalty", 0, 40 * one)
    ∷ ("brand_demand", 0, 40 * one)
    ∷ ("sat_outlets", 1 * one, 20 * one)
    ∷ []

abbrev pub lookup : String → Weights → Option ℕ
lookup k [] = none
lookup k ((j, v) ∷ ws) = let rest = lookup k ws in if str_eq j k then some v else rest

-- `ranges.get(key, (0.0, 100.0))`
abbrev pub range_in : String → List (String × ℕ × ℕ) → ℕ × ℕ
range_in k [] = (0, 100 * one)
range_in k ((j, lo, hi) ∷ rs) = let rest = range_in k rs in if str_eq j k then (lo, hi) else rest

pub record TrendScoreWeight : Type 0 where
  pub key : String
  pub value : ℕ
  pub updated_by : Option String

-- A value of the form: missing, or what `float` and `round` make of it, where it is a number.
pub data Raw : Type 0 where
  missing unreadable : Raw
  number : ℤ → Raw

-- The value of the last row of a key.
abbrev pub latest : String → List TrendScoreWeight → Option ℕ
latest k [] = none
latest k (r ∷ rs) = elim (latest k rs) [
  | none ↦ if str_eq r.key k then some r.value else none
  | some v ↦ some v
]

abbrev pub unless_default : ℕ → Option ℕ → Option ℕ
unless_default d none = none
unless_default d (some v) = if v == d then none else some v

abbrev pub override_of : Option ℕ → Option ℕ → Option ℕ
override_of none v = none
override_of (some d) v = unless_default d v

-- The override of a key: the dict as a function.
unfoldable pub load_overrides : List TrendScoreWeight → String → Option ℕ
load_overrides rows k = override_of (lookup k default_score_weights) (latest k rows)

abbrev pub resolved : Option ℕ → Option ℕ → Option ℕ
resolved none v = none
resolved (some d) v = some (or_else v d)

-- The weight of a key; a key that is not known has none.
unfoldable pub resolve_weights : (String → Option ℕ) → String → Option ℕ
resolve_weights overrides k = resolved (lookup k default_score_weights) (overrides k)

unfoldable pub load_effective : List TrendScoreWeight → String → Option ℕ
unfolding load_overrides resolve_weights
load_effective rows = resolve_weights (load_overrides rows)

abbrev pub positive : ℤ → ℕ
positive (ℤ.pos n) = n
positive (ℤ.negsuc n) = 0

-- `max(lo, min(hi, val))`, with no limit below zero
unfoldable pub clamped : String → ℤ → ℕ
clamped k z = let (lo, hi) = range_in k ranges in max lo (min hi (positive z))

abbrev pub asked_of : String → Option ℕ → Raw → Option ℕ
asked_of k none raw = none
asked_of k (some d) missing = none
asked_of k (some d) unreadable = none
asked_of k (some d) (number z) = some (clamped k z)

-- What a pair of the form asks for, if it is not passed over.
unfoldable pub asked : String → Raw → Option ℕ
unfolding clamped
asked k raw = asked_of k (lookup k default_score_weights) raw

abbrev pub is_current : Option ℕ → ℕ → Bool
is_current none v = false
is_current (some w) v = w == v

abbrev pub one_row : (String → Option ℕ) → String → Option String → Option ℕ → List TrendScoreWeight
one_row current k by none = []
one_row current k by (some v) =
    if is_current (current k) v then [] else record { key = k; value = v; updated_by = by } ∷ []

-- The rows that a save adds, and so the keys that it returns.
unfoldable pub new_rows :
    (String → Option ℕ) → Option String → List (String × Raw) → List TrendScoreWeight
new_rows current by [] = []
new_rows current by ((k, raw) ∷ values) =
    one_row current k by (asked k raw) ++ new_rows current by values

unfoldable pub save_weights :
    List (String × Raw)
    → Option String
    → List TrendScoreWeight
    → List String × List TrendScoreWeight
unfolding new_rows
save_weights values by rows =
    let new = new_rows (load_effective rows) by values in (map (λ r. r.key) new, rows ++ new)

abbrev pub defaults_form : Weights → List (String × Raw)
defaults_form [] = []
defaults_form ((k, d) ∷ ws) = (k, number (ℤ.pos d)) ∷ defaults_form ws

unfoldable pub reset_weights : Option String → List TrendScoreWeight → ℕ × List TrendScoreWeight
unfolding save_weights
reset_weights by rows =
    let (written, rows') = save_weights (defaults_form default_score_weights) by rows in
    (length written, rows')
