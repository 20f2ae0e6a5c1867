-- ===== src/Governor/CapsConfig.antt =====
-- The operator's override of the caps (governor/caps_config.py), kept in the row of `app_setting`.
-- A number from the form or the stored JSON is the exact value of its float, as the fraction
-- n / (d + 1) of `number n d`; the arithmetic rounds as Governor.Floats does.
use adam_abundance.Base.{
  ℕ, suc, ◌-◌, ◌*◌, ◌/◌, min, Bool, true, false, Option, none, some, if◌then◌else◌, or_else, Result,
  Exec, ◌>>=◌, String,
}
use adam_abundance.Governor.Caps.{SpendCaps, gib}
use adam_abundance.Governor.Floats.{round_half_even, float}

-- A value as `float(v)` sees it: a number of at least zero, one below, or no number.
pub data Raw : Type 0 where
  number : ℕ → ℕ → Raw
  negative : Raw
  not_number : Raw

-- `None` in `enabled` is a missing key; the other fields read `not_number` where the key is
-- missing.
pub record Override : Type 0 where
  pub enabled : Option Bool
  pub llm_usd_per_day : Raw
  pub bq_gib_per_day : Raw
  pub ahrefs_units_per_day : Raw

abbrev pub usd_micros : ℕ
usd_micros = 1_000_000

-- `int(x * factor)`
abbrev pub times : ℕ → ℕ × ℕ → ℕ
times factor (n, d) = let (m, e) = float (n * factor) d in m / suc e

-- `int(_num(v, base / factor) * factor)`
unfoldable pub scaled : ℕ → Raw → ℕ → ℕ
unfolding float
scaled factor (number n d) base = times factor (n, d)
scaled factor _ base = times factor (float base (factor - 1))

-- `int(_num(v, base))`
abbrev pub whole : Raw → ℕ → ℕ
whole (number n d) base = n / suc d
whole _ base = base

abbrev apply_override : SpendCaps → Override → SpendCaps
apply_override base o =
    let llm_day = scaled usd_micros o.llm_usd_per_day base.llm_micros_per_day in
    let bq_day = scaled gib o.bq_gib_per_day base.bq_bytes_per_day in
    let ah_day = whole o.ahrefs_units_per_day base.ahrefs_units_per_day in
    record {
      enabled = or_else o.enabled base.enabled;
      ahrefs_units_per_day = ah_day;
      ahrefs_units_per_run = min base.ahrefs_units_per_run ah_day;
      llm_micros_per_day = llm_day;
      llm_micros_per_run = min base.llm_micros_per_run llm_day;
      bq_bytes_per_day = bq_day;
      bq_bytes_per_run = min base.bq_bytes_per_run bq_day;
    }

-- No override, or a stored value that is not an object, leaves the base.
unfoldable pub overlay : SpendCaps → Option Override → SpendCaps
unfolding scaled
overlay base none = base
overlay base (some o) = apply_override base o

-- The row of `app_setting` under `spend_caps`: its value, `none` where that is no object.
pub record CapsRow : Type 0 where
  pub value : Option Override
  pub updated_by : Option String

pub record CapsTable : Type 0 where
  pub row : Option CapsRow
  pub readable : Bool

unfoldable pub load_override : CapsTable → Result (Unit {0}) (Option Override)
load_override t =
    if t.readable then Result.ok (elim t.row [ none ↦ none | some r ↦ r.value ]) else Result.err tt

-- A failed read falls back to the base.
abbrev resolve_loaded : SpendCaps → Result (Unit {0}) (Option Override) → SpendCaps
resolve_loaded base (Result.ok o) = overlay base o
resolve_loaded base (Result.err e) = base

unfoldable pub resolve_caps : CapsTable → SpendCaps → SpendCaps
unfolding load_override
resolve_caps t base = resolve_loaded base (load_override t)

pub data CapsError : Type 0 where
  must_be_a_number must_not_be_negative : String → CapsError

abbrev pub nonneg : Raw → String → Result CapsError (ℕ × ℕ)
nonneg (number n d) field = Result.ok (n, d)
nonneg negative field = Result.err (must_not_be_negative field)
nonneg not_number field = Result.err (must_be_a_number field)

abbrev as_raw : ℕ × ℕ → Raw
as_raw (n, d) = number n d

-- `round(x, 2)`: the float that is nearest to the rounded hundredths.
unfoldable pub hundredths : ℕ × ℕ → Raw
unfolding float
hundredths (n, d) = as_raw (float (round_half_even (100 * n) d) 99)

abbrev pub lift : {A : Type 0} → Result CapsError A → Exec CapsTable CapsError A
lift r s = (r, s)

abbrev pub store_value : Override → Option String → Exec CapsTable CapsError Override
store_value v by t =
    (Result.ok v, record t { row = some (record { value = some v; updated_by = by }) })

unfoldable pub save_caps :
    Bool → Raw → Raw → Raw → Option String → Exec CapsTable CapsError Override
unfolding hundredths
save_caps enabled llm bq ahrefs by = do
  x ← lift (nonneg llm "llm_usd_per_day")
  y ← lift (nonneg bq "bq_gib_per_day")
  z ← lift (nonneg ahrefs "ahrefs_units_per_day")
  store_value
      (record {
        enabled = some enabled;
        llm_usd_per_day = hundredths x;
        bq_gib_per_day = hundredths y;
        ahrefs_units_per_day = number (z.0 / suc z.1) 0;
      })
      by

unfoldable pub reset_caps : CapsTable → Bool × CapsTable
reset_caps t = elim t.row [ none ↦ (false, t) | some r ↦ (true, record t { row = none }) ]

-- What the Governor page shows: dollars and GiB, rounded to hundredths.
unfoldable pub caps_to_ui : SpendCaps → Override
unfolding hundredths float
caps_to_ui c = record {
  enabled = some c.enabled;
  llm_usd_per_day = hundredths (float c.llm_micros_per_day 999_999);
  bq_gib_per_day = hundredths (float c.bq_bytes_per_day 1_073_741_823);
  ahrefs_units_per_day = number c.ahrefs_units_per_day 0;
}
