-- ===== src/Costs/Pricing.antt =====
-- costs.py and pricing.py. A price is in hundredths of a dollar for a million tokens, a cost in
-- millionths of a dollar, over exact fractions: the floats' own rounding is left out.
use mathlib.Core.List.{reverse}
use adam_abundance.Base.{
  ℕ, zero, suc, ◌+◌, ◌*◌, ◌/◌, ◌%◌, String, Bool, ◌&&◌, Option, none, some, List, [], ◌∷◌, ◌++◌,
  length, leb, ltb, ◌==◌, if◌then◌else◌,
}
use adam_abundance.Base.Text.{codes, same_codes}

abbrev pub Price : Type 0
Price = ℕ × ℕ

-- `_PRICING`
abbrev pub price_list : List (String × Price)
price_list =
    ("claude-haiku-4-5", (100, 500))
    ∷ ("claude-haiku-3-5", (80, 400))
    ∷ ("claude-sonnet-4-6", (300, 1500))
    ∷ ("claude-sonnet-5", (300, 1500))
    ∷ ("claude-opus-4-5", (500, 2500))
    ∷ ("claude-opus-4-6", (500, 2500))
    ∷ ("claude-opus-4-7", (500, 2500))
    ∷ ("claude-opus-4-8", (500, 2500))
    ∷ ("claude-fable-5", (100, 500))
    ∷ []

abbrev default_price : Price
default_price = (300, 1500)

abbrev is_digit : ℕ → Bool
is_digit c = leb b'0' c && leb c b'9'

-- What is left after n digits and a dash, if the text begins so.
abbrev after_date : ℕ → List ℕ → Option (List ℕ)
after_date n [] = none
after_date zero (c ∷ cs) = if c == b'-' then some cs else none
after_date (suc n) (c ∷ cs) = let rest = after_date n cs in if is_digit c then rest else none

abbrev undated : List ℕ → Option (List ℕ) → List ℕ
undated m none = m
undated m (some rest) = reverse rest

-- `_normalize`: a date of eight digits at the end is cut off.
unfoldable pub normalize : String → List ℕ
normalize model = undated (codes model) (after_date 8 (reverse (codes model)))

abbrev pub price_in : List (String × Price) → List ℕ → Price
price_in [] m = default_price
price_in ((name, p) ∷ ps) m =
    let rest = price_in ps m in if same_codes m (codes name) then p else rest

unfoldable pub price_per_million : String → Price
unfolding normalize
price_per_million model = price_in price_list (normalize model)

pub record Tokens : Type 0 where
  pub input : ℕ
  pub output : ℕ
  pub cache_creation : ℕ
  pub cache_read : ℕ
  pub web_search_requests : ℕ

-- Ten thousand times the cost: the cache writes at 1.25, the cache reads at 0.10, and a search at a
-- hundredth of a dollar.
abbrev pub exact_cost : Price → Tokens → ℕ
exact_cost (price_input, price_output) t =
    100 * (t.input * price_input)
    + 100 * (t.output * price_output)
    + 125 * (t.cache_creation * price_input)
    + 10 * (t.cache_read * price_input)
    + 100000000 * t.web_search_requests

-- `round(x / 10000)`, where a half goes to the even side
unfoldable pub rounded : ℕ → ℕ
rounded x =
    let q = x / 10000 in
    if ltb (x % 10000) 5000 then q else if ltb 5000 (x % 10000) then q + 1 else q + q % 2

unfoldable pub compute_llm_micros : String → Tokens → ℕ
unfolding rounded
compute_llm_micros model t = rounded (exact_cost (price_per_million model) t)

-- A row of `pricing_config`, in hundred-millionths of a dollar for a unit.
pub record PricingConfig : Type 0 where
  pub kind : String
  pub key : Option String
  pub usd_per_unit : ℕ

abbrev model_rows : List (String × Price) → List PricingConfig
model_rows [] = []
model_rows ((model, p) ∷ ps) =
    record { kind = "llm_input"; key = some model; usd_per_unit = p.0 }
    ∷ record { kind = "llm_output"; key = some model; usd_per_unit = p.1 }
    ∷ model_rows ps

unfoldable pub seed_rows : List PricingConfig
seed_rows =
    model_rows price_list
    ++ record { kind = "bq_tb"; key = none; usd_per_unit = 625000000 }
      ∷ record { kind = "ahrefs_unit"; key = none; usd_per_unit = 500000 }
      ∷ []

unfoldable pub seed_pricing : List PricingConfig → ℕ × List PricingConfig
unfolding seed_rows
seed_pricing [] = (length seed_rows, seed_rows)
seed_pricing (r ∷ rows) = (0, r ∷ rows)
