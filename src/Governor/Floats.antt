-- ===== src/Governor/Floats.antt =====
-- Python's floats at least zero, as exact fractions n / (d + 1): the nearest number of 53 binary
-- digits, half to even. Overflow and numbers below the normal range are left out.
use adam_abundance.Base.{
  ℕ, zero, suc, ◌+◌, ◌-◌, ◌*◌, ◌/◌, ◌%◌, ltb, leb, ◌==◌, if◌then◌else◌, true, false,
}

-- Half to even of n / (d + 1), as `round` does.
unfoldable pub round_half_even : ℕ → ℕ → ℕ
round_half_even n d =
    let q = n / suc d in
    let r = n % suc d in
    if ltb (2 * r) (suc d)
    then q
    else if ltb (suc d) (2 * r)
    then q + 1
    else if q % 2 == 0
    then q
    else q + 1

abbrev digits : ℕ
digits = 4_503_599_627_370_496

-- The fraction is doubled until its whole part has 53 binary digits, rounded, and halved again; `p`
-- is the power of two so far.
abbrev scaled_up : ℕ → ℕ → ℕ → ℕ → ℕ × ℕ
scaled_up zero n d p = (round_half_even n d, p - 1)
scaled_up (suc fuel) n d p = elim (leb (digits * suc d) n) [
  | true ↦ (round_half_even n d, p - 1)
  | false ↦ scaled_up fuel (2 * n) d (2 * p)
]

-- A fraction of 54 binary digits or more is halved.
abbrev scaled_down : ℕ → ℕ → ℕ → ℕ → ℕ × ℕ
scaled_down zero n d p = (p * round_half_even n d, 0)
scaled_down (suc fuel) n d p = elim (leb (2 * digits * suc d) n) [
  | true ↦ scaled_down fuel n (2 * suc d - 1) (2 * p)
  | false ↦ (p * round_half_even n d, 0)
]

-- The float nearest to n / (d + 1), as a fraction again. A normal float takes at most 1074 doublings
-- and 971 halvings.
unfoldable pub float : ℕ → ℕ → ℕ × ℕ
unfolding round_half_even
float n d = elim (leb (2 * digits * suc d) n) [
  | true ↦ scaled_down 1100 n d 1
  | false ↦ if n == 0 then (0, 0) else scaled_up 1100 n d 1
]
