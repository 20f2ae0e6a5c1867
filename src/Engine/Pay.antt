-- ===== src/Engine/Pay.antt =====
-- The cost of a pipeline in trends/pipeline.py (`_record_pipeline_cost`, `_human_equiv_usd`), over
-- the rows of `writer_pay_baseline` and `pipeline_cost`. An amount in USD is a whole number of
-- millionths, a rounded one of hundredths; a sum of the metered micro-USD is exact.
use adam_abundance.Base.{
  ℕ, zero, suc, ◌+◌, ◌*◌, ◌-◌, String, Bool, false, ◌&&◌, ◌||◌, Option, none, some, List, [], ◌∷◌,
  ◌++◌, leb, ltb, ◌==◌, if◌then◌else◌, str_eq, is_none, or_else, count_if, ℤ, pos, negsuc,
}
use adam_abundance.Base.Table.{Keyed, find, put}
use adam_abundance.Governor.Floats.{round_half_even}
use adam_abundance.Trends.Rows.{Job}

pub record WriterPayBaseline : Type 0 where
  pub brand : String
  pub author : Option String
  pub usd_per_article : Option ℕ
  pub usd_per_word : Option ℕ
  pub effective_at : ℕ

-- `run_of` is the number in `pipeline:<id>`, the text of `pipeline_run_id`. Of the breakdown only
-- the spend on the language model is ever other than 0.
pub record PipelineCost : Type 0 where
  pub run_of : ℕ
  pub brand : String
  pub used_style_profile : Bool
  pub style_profile_id : Option ℕ
  pub llm_usd : ℕ
  pub total_usd : ℕ
  pub human_equiv_usd : Option ℕ
  pub savings_usd : Option ℤ
  pub completed_at : ℕ

instance abbrev pub cost_keyed : Keyed PipelineCost
cost_keyed = record { key = λ c. c.run_of }

-- What the rollup reads in a job's `preview_meta`.
pub record PreviewMeta : Type 0 where
  pub title : String
  pub word_count : ℕ
  pub used_style_profile : Bool
  pub style_profile_id : Option ℕ

abbrev pub no_meta : PreviewMeta
no_meta = record { title = ""; word_count = 0; used_style_profile = false; style_profile_id = none }

-- The loop's four variables.
pub record Rollup : Type 0 where
  pub micros : ℕ
  pub words : ℕ
  pub used_profile : Bool
  pub style_profile_id : Option ℕ

-- `a or b` of two numbers that may be missing.
abbrev pub or_id : Option ℕ → Option ℕ → Option ℕ
or_id none b = b
or_id (some zero) b = b
or_id (some (suc n)) b = some (suc n)

module _ (read_meta : String → PreviewMeta) where
  abbrev pub meta_of : Job → PreviewMeta
  meta_of j = elim j.preview_meta [ none ↦ no_meta | some t ↦ read_meta t ]

  abbrev pub add_cost : Rollup → Job → Rollup
  add_cost r j = record {
    micros = r.micros + or_else j.cost 0;
    words = r.words + (meta_of j).word_count;
    used_profile = r.used_profile || (meta_of j).used_style_profile;
    style_profile_id =
        if (meta_of j).used_style_profile
        then or_id r.style_profile_id (meta_of j).style_profile_id
        else r.style_profile_id;
  }

  unfoldable pub roll_costs : Rollup → List Job → Rollup
  roll_costs r [] = r
  roll_costs r (j ∷ js) = roll_costs (add_cost r j) js

abbrev pub no_costs : Rollup
no_costs = record { micros = 0; words = 0; used_profile = false; style_profile_id = none }

-- The latest row of the brand that names no author; among rows of one time, the first.
abbrev pub is_baseline : String → WriterPayBaseline → Bool
is_baseline brand b = str_eq b.brand brand && is_none b.author

abbrev pub newer_of : WriterPayBaseline → Option WriterPayBaseline → WriterPayBaseline
newer_of b none = b
newer_of b (some c) = if ltb b.effective_at c.effective_at then c else b

unfoldable pub latest_baseline : String → List WriterPayBaseline → Option WriterPayBaseline
latest_baseline brand [] = none
latest_baseline brand (b ∷ bs) =
    let rest = latest_baseline brand bs in
    if is_baseline brand b then some (newer_of b rest) else rest

-- `round(x, 2)` of millionths: 10 000 of them are a hundredth.
abbrev pub to_cents : ℕ → ℕ
to_cents micros = round_half_even micros 9999

abbrev pub by_words : Option ℕ → ℕ → Option ℕ
by_words none words = none
by_words (some rate) zero = none
by_words (some rate) (suc words) = some (to_cents (rate * suc words))

abbrev pub by_rates : Option ℕ → Option ℕ → ℕ → Option ℕ
by_rates (some article) word words = some (to_cents article)
by_rates none word words = by_words word words

unfoldable pub human_equiv_usd : String → ℕ → List WriterPayBaseline → Option ℕ
unfolding latest_baseline round_half_even
human_equiv_usd brand words bs = elim (latest_baseline brand bs) [
  | none ↦ none
  | some b ↦ by_rates b.usd_per_article b.usd_per_word words
]

abbrev pub neg : ℕ → ℤ
neg zero = pos 0
neg (suc n) = negsuc n

-- `round(human - total, 2)` in hundredths, of hundredths and millionths.
abbrev pub difference : ℕ → ℕ → ℤ
difference human total =
    if leb total (human * 10000)
    then pos (to_cents (human * 10000 - total))
    else neg (to_cents (total - human * 10000))

abbrev pub savings : Option ℕ → ℕ → Option ℤ
savings none total = none
savings (some human) total = some (difference human total)

module _ (now : ℕ) where
  unfoldable pub cost_row : ℕ → String → Rollup → Option ℕ → PipelineCost
  unfolding round_half_even
  cost_row i brand r human = record {
    run_of = i;
    brand = brand;
    used_style_profile = r.used_profile;
    style_profile_id = r.style_profile_id;
    llm_usd = r.micros;
    total_usd = r.micros;
    human_equiv_usd = human;
    savings_usd = savings human r.micros;
    completed_at = now;
  }

-- The update of a row that is there leaves its brand.
abbrev pub over_row : PipelineCost → PipelineCost → PipelineCost
over_row old new = record new { run_of = old.run_of; brand = old.brand }

abbrev pub upsert_cost : PipelineCost → Option PipelineCost → List PipelineCost → List PipelineCost
upsert_cost new none cs = cs ++ new ∷ []
upsert_cost new (some old) cs = put old.run_of (over_row old new) cs

-- `scalar_one_or_none` raises where there are two such rows.
abbrev pub count_runs : ℕ → List PipelineCost → ℕ
count_runs i cs = count_if (λ c. c.run_of == i) cs

-- The table after the write, or none where it raises.
unfoldable pub write_cost : PipelineCost → List PipelineCost → Option (List PipelineCost)
write_cost new cs =
    if leb (count_runs new.run_of cs) 1
    then some (upsert_cost new (find new.run_of cs) cs)
    else none
