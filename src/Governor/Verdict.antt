-- ===== src/Governor/Verdict.antt =====
-- What `check_budget` decides, against a description of the caps that does not run the loop.
use adam_abundance.Base.{
  ℕ, zero, suc, ◌+◌, ◌≡◌, refl, Bool, true, false, ◌&&◌, Option, none, some, List, [], ◌∷◌, ◌++◌,
  arith, ltb, leb, if◌then◌else◌, ℤ, pos, negsuc, Result, Exec, ◌↔◌, pure, ◌>>=◌, ◌>>◌, bind-ok,
  ◌∙◌, or_else, Bool-cases, Option-cases, inl, inr, length, length-append, String,
}
use adam_abundance.Memory.Types.{EntryType}
use adam_abundance.Memory.Store.{StoreError, is_valid_scope, write}
use adam_abundance.Governor.Caps.{SpendMetric, SpendCaps, per_day, per_run}
use adam_abundance.Governor.Policy.{PlanItemView, Violation, over_per_run, over_per_day, Decision}
use adam_abundance.Governor.Budget.{
  Governor, spent, effective, metrics, within_caps, check_day, write_cap_flag, check_metric,
  check_metrics, check_budget, verdict,
}

abbrev pub under : Option ℕ → ℕ → Bool
under none amount = true
under (some cap) amount = leb amount cap

-- An amount is within the caps when it is not positive, or is at most the per-run cap and keeps
-- the day's spend at most the per-day cap.
abbrev pub fits : SpendCaps → ℕ → SpendMetric → ℤ → Bool
fits caps used m (pos (suc n)) =
    under (per_run caps m) (suc n) && under (per_day caps m) (used + suc n)
fits caps used m (pos zero) = true
fits caps used m (negsuc n) = true

-- The number of metrics, among those listed, whose amount does not fit.
abbrev pub misfits : SpendCaps → (SpendMetric → ℕ) → (SpendMetric → ℤ) → List SpendMetric → ℕ
misfits caps used est [] = 0
misfits caps used est (m ∷ ms) =
    (if fits caps (used m) m (est m) then 0 else 1) + misfits caps used est ms

-- What a check leaves behind: the caps and the ledger as they were, and `n` rows more in memory.
pub record Checked (g g' : Governor) (n : ℕ) : Type 0 where
  pub caps_kept : effective g' ≡ effective g
  pub ledger_kept : g'.ledger ≡ g.ledger
  pub flagged : length g'.memory.entries ≡ length g.memory.entries + n

not_over : (cap amount : ℕ) → leb amount cap ≡ true → ltb cap amount ≡ false
not_over cap amount h = ground arith

over : (cap amount : ℕ) → leb amount cap ≡ false → ltb cap amount ≡ true
over cap amount h = ground arith

Checked-trans : {a b c : Governor} {m n : ℕ} → Checked a b m → Checked b c n → Checked a c (m + n)
Checked-trans p q = record {
  caps_kept = q.caps_kept ∙ p.caps_kept;
  ledger_kept = q.ledger_kept ∙ p.ledger_kept;
  flagged = omega (arith, p.flagged, q.flagged);
}

module _ (ttls : EntryType → Option ℕ) (now today : ℕ) (item : PlanItemView)
    (valid : is_valid_scope item.brand ≡ true) where
  -- How a part of the check ends: with no violation where `fit`, else with one.
  abbrev Ends : Governor → Bool → Result StoreError (List Violation) × Governor → Type 0
  Ends g fit r =
      (vs : List Violation) × (r.0 ≡ Result.ok vs)
      × (length vs ≡ (if fit then 0 else 1))
      × Checked g r.1 (length vs)

  -- Resolving the caps is no part of what a check leaves behind.
  after_resolving :
      (g : Governor) (fit : Bool) (r : Result StoreError (List Violation) × Governor)
      → Ends (record g { eff_caps = some (effective g) }) fit r
      → Ends g fit r
  after_resolving g fit r (vs, e, l, c) = (
    vs,
    e,
    l,
    record { caps_kept = c.caps_kept; ledger_kept = c.ledger_kept; flagged = c.flagged },
  )

  flag_Ends :
      (m : SpendMetric) (would_be cap : ℕ) (scope : String) (v : Violation) (g : Governor)
      → Ends g false ((write_cap_flag ttls now today item m would_be cap scope >> pure (v ∷ [])) g)
  unfolding write_cap_flag write
  flag_Ends m would_be cap scope v g = rw valid (
    v ∷ [],
    refl,
    refl,
    record { caps_kept = refl; ledger_kept = refl; flagged = length-append g.memory.entries _ },
  )

  day_Ends :
      (m : SpendMetric) (amount : ℕ) (g : Governor)
      → Ends g
          (under (per_day (effective g) m) (spent today m g.ledger + amount))
          ((within_caps today m amount >>= check_day ttls now today item m amount) g)
  unfolding within_caps
  day_Ends m amount g = elim (Option-cases (per_day (effective g) m)) [
    | inl e ↦ rw e ([], refl, refl, ground arith)
    | inr (ceiling, e) ↦ elim (Bool-cases (leb (spent today m g.ledger + amount) ceiling)) [
      | inl b ↦ rw (e, b) ([], refl, refl, ground arith)
      | inr b ↦
          rw (e, b)
            (after_resolving g false _ (
              flag_Ends m (spent today m g.ledger + amount) (or_else (per_day (effective g) m) 0)
                "per_day"
                (over_per_day m (spent today m g.ledger) amount
                  (or_else (per_day (effective g) m) 0))
                (record g { eff_caps = some (effective g) })))
    ]
  ]

  check_metric-Ends :
      (m : SpendMetric) (a : ℤ) (g : Governor)
      → Ends g
          (fits (effective g) (spent today m g.ledger) m a)
          (check_metric ttls now today item m a g)
  unfolding check_metric
  check_metric-Ends m (pos zero) g = ([], refl, refl, ground arith)
  check_metric-Ends m (negsuc n) g = ([], refl, refl, ground arith)
  check_metric-Ends m (pos (suc n)) g = elim (Option-cases (per_run (effective g) m)) [
    | inl e ↦ rw e (
        after_resolving g (under (per_day (effective g) m) (spent today m g.ledger + suc n)) _
          (day_Ends m (suc n) (record g { eff_caps = some (effective g) })))
    | inr (ceiling, e) ↦ elim (Bool-cases (leb (suc n) ceiling)) [
      | inl b ↦
          rw (e, not_over ceiling (suc n) b, b)
            (after_resolving g (under (per_day (effective g) m) (spent today m g.ledger + suc n)) _
              (day_Ends m (suc n) (record g { eff_caps = some (effective g) })))
      | inr b ↦
          rw (e, over ceiling (suc n) b, b)
            (after_resolving g false _ (
              flag_Ends m (suc n) ceiling "per_run" (over_per_run m (suc n) ceiling)
                (record g { eff_caps = some (effective g) })))
    ]
  ]

  check_metrics_lem :
      (ms : List SpendMetric) (g : Governor)
      → (vs : List Violation) × ((check_metrics ttls now today item ms g).0 ≡ Result.ok vs)
        × (length vs ≡ misfits (effective g) (λ m. spent today m g.ledger) item.cost_estimate ms)
        × Checked g (check_metrics ttls now today item ms g).1 (length vs)
  unfolding check_metrics
  check_metrics_lem [] g = ([], refl, refl, ground arith)
  check_metrics_lem (m ∷ ms) g =
      let first : Exec Governor StoreError (List Violation) =
        check_metric ttls now today item m (item.cost_estimate m) in
      let g' : Governor = (first g).1 in
      let (vs, e, l, c) = check_metric-Ends m (item.cost_estimate m) g in
      let (ws, e', l', c') = check_metrics_lem ms g' in
      rw (bind-ok first _ g vs e) (
        rw (bind-ok (check_metrics ttls now today item ms) _ g' ws e') (
          vs ++ ws,
          refl,
          count vs ws l (rw (c.caps_kept, c.ledger_kept) at l'),
          rw (length-append vs ws) (Checked-trans c c'),
        ))
    where
      count :
          (vs ws : List Violation) {k j : ℕ}
          → length vs ≡ k
          → length ws ≡ j
          → length (vs ++ ws) ≡ k + j
      count vs ws p q = omega (arith, length-append vs ws)

  -- For an item of a known scope the check returns: it allows the item exactly when every metric's
  -- amount is within the per-run cap and, with the spend of the day, within the per-day cap. A
  -- refusal forces the dry run and lists one violation for each metric over a cap. The ledger and
  -- the caps stay as they were, and memory grows by one flag for each violation.
  pub check_budget_lem :
      (g : Governor)
      → let over_cap =
          misfits (effective g) (λ m. spent today m g.ledger) item.cost_estimate metrics in
        (d : Decision) × ((check_budget ttls now today item g).0 ≡ Result.ok d)
        × ((d.allowed ≡ true) ↔ (over_cap ≡ 0))
        × (d.dry_run ≡ (if d.allowed then item.dry_run else true))
        × (length d.violations ≡ over_cap)
        × Checked g (check_budget ttls now today item g).1 over_cap
  unfolding check_budget
  check_budget_lem g =
      let (vs, e, l, c) = check_metrics_lem metrics g in
      rw (bind-ok (check_metrics ttls now today item metrics) _ g vs e) (done vs l (rw l at c))
    where
      done :
          (vs : List Violation) {k : ℕ} {g' : Governor}
          → length vs ≡ k
          → Checked g g' k
          → (d : Decision) × (◌≡◌ {A = Result StoreError Decision}
              (Result.ok (verdict ttls now today item vs))
              (Result.ok d))
            × ((d.allowed ≡ true) ↔ (k ≡ 0))
            × (d.dry_run ≡ (if d.allowed then item.dry_run else true))
            × (length d.violations ≡ k)
            × Checked g g' k
      done [] l c =
          (verdict ttls now today item [], refl, (λ _. omega (arith, l), λ _. refl), refl, l, c)
      done (v ∷ vs) l c = (
        verdict ttls now today item (v ∷ vs),
        refl,
        (λ h. cc, λ h. absurd (omega (arith, l, h))),
        refl,
        l,
        c,
      )
