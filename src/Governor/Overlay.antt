-- ===== src/Governor/Overlay.antt =====
-- The caps under the operator's override.
use adam_abundance.Base.{
  ◌≤◌, ◌≡◌, refl, Bool, true, Option, none, some, String, arith, Result, ◌⊎◌, inl, inr,
}
use adam_abundance.Governor.Caps.{SpendMetric, SpendCaps, day_ceiling, run_ceiling}
use adam_abundance.Governor.CapsConfig.{
  Raw, number, negative, not_number, Override, overlay, CapsTable, CapsError, save_caps,
  resolve_caps,
}

-- Over a base whose per-run ceilings are within the per-day ones, no override, whatever it holds,
-- leaves a per-run ceiling above its per-day ceiling or above the base's.
pub overlay_bounds :
    (base : SpendCaps) (o : Option Override) (m : SpendMetric)
    → run_ceiling base m ≤ day_ceiling base m
    → (run_ceiling (overlay base o) m ≤ day_ceiling (overlay base o) m)
      × (run_ceiling (overlay base o) m ≤ run_ceiling base m)
unfolding overlay
overlay_bounds base none m h = omega arith
overlay_bounds base (some o) SpendMetric.ahrefs_units h = omega arith
overlay_bounds base (some o) SpendMetric.llm_micros h = omega arith
overlay_bounds base (some o) SpendMetric.bq_bytes h = omega arith

-- What a save has accepted is what the next read finds and what the caps are resolved from; a save
-- that raises has stored nothing.
save_caps-load :
    (enabled : Bool) (llm bq ahrefs : Raw) (by : Option String) (t : CapsTable) (base : SpendCaps)
    → t.readable ≡ true
    → let (r, t') = save_caps enabled llm bq ahrefs by t in
      ((v : Override) × (r ≡ Result.ok v) × (resolve_caps t' base ≡ overlay base (some v)))
      ⊎ ((e : CapsError) × (r ≡ Result.err e) × (t' ≡ t))
unfolding save_caps resolve_caps
save_caps-load enabled negative bq ahrefs by t base h = inr (_, refl, refl)
save_caps-load enabled not_number bq ahrefs by t base h = inr (_, refl, refl)
save_caps-load enabled (number n d) negative ahrefs by t base h = inr (_, refl, refl)
save_caps-load enabled (number n d) not_number ahrefs by t base h = inr (_, refl, refl)
save_caps-load enabled (number n d) (number k e) negative by t base h = inr (_, refl, refl)
save_caps-load enabled (number n d) (number k e) not_number by t base h = inr (_, refl, refl)
save_caps-load enabled (number n d) (number k e) (number j f) by t base h = inl (_, refl, rw h)
