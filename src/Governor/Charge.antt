-- ===== src/Governor/Charge.antt =====
-- The spend ledger under `charge`, and what `remaining` says of `within_caps`.
use adam_abundance.Base.{
  ℕ, zero, suc, ◌+◌, ◌-◌, ◌≤◌, ◌≡◌, refl, ap, ◌&&◌, some, List, [], ◌∷◌, ◌++◌, arith, leb, ◌==◌,
  if◌then◌else◌, ℤ, pos, negsuc, String, Result,
}
use adam_abundance.Governor.Caps.{SpendMetric, same_metric, per_day}
use adam_abundance.Governor.Budget.{
  SpendLedger, Governor, spent, charge, effective, remaining, within_caps,
}

-- The part of an amount that is charged.
abbrev pub charged : ℤ → ℕ
charged (pos n) = n
charged (negsuc n) = 0

spent-append :
    (day : ℕ) (m : SpendMetric) (rs ss : List SpendLedger)
    → spent day m (rs ++ ss) ≡ spent day m rs + spent day m ss
spent-append day m [] ss = omega arith
spent-append day m (r ∷ rs) ss = omega (arith, spent-append day m rs ss)

-- A charge raises the spend of its own day and metric by its amount, if that is positive, and no
-- other spend.
pub spent-charge :
    (day today : ℕ) (m m' : SpendMetric) (a : ℤ) (agent : String) (g : Governor)
    → spent day m (charge today m' a agent g).ledger
      ≡ spent day m g.ledger + (if today == day && same_metric m' m then charged a else 0)
unfolding charge
spent-charge day today m m' (pos zero) agent g = ground arith
spent-charge day today m m' (negsuc n) agent g = ground arith
spent-charge day today m m' (pos (suc n)) agent g = omega (
  arith,
  spent-append day m g.ledger
      (record { window_date = today; metric = m'; amount = suc n; agent = agent } ∷ []),
)

pub effective-charge :
    (today : ℕ) (m : SpendMetric) (a : ℤ) (agent : String) (g : Governor)
    → effective (charge today m a agent g) ≡ effective g
unfolding charge
effective-charge today m (pos zero) agent g = refl
effective-charge today m (negsuc n) agent g = refl
effective-charge today m (pos (suc n)) agent g = refl

leb-sub : (used a ceiling : ℕ) → used ≤ ceiling → leb (used + a) ceiling ≡ leb a (ceiling - used)
leb-sub used a ceiling h = ground arith

-- Under a cap, `remaining` and `within_caps` agree: while the day's spend is within the cap, an
-- amount is within the caps exactly when it is at most what remains.
within_caps-remaining :
    (today : ℕ) (m : SpendMetric) (a ceiling : ℕ) (g : Governor)
    → per_day (effective g) m ≡ some ceiling
    → spent today m g.ledger ≤ ceiling
    → (left : ℕ) × ((remaining today m g).0 ≡ Result.ok (some left))
      × ((within_caps today m a g).0 ≡ Result.ok (leb a left))
unfolding remaining within_caps
within_caps-remaining today m a ceiling g e h = rw e (
  ceiling - spent today m g.ledger,
  refl,
  ap (λ b. Result.ok b) (leb-sub (spent today m g.ledger) a ceiling h),
)
