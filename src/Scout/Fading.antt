-- ===== src/Scout/Fading.antt =====
-- A topic that has not fallen is not suppressed.
use native.Mathlib.Nat.{mul-le-mul_right, mul-le-mul, mul_right_comm, mul-suc}
use adam_abundance.Base.{
  drop, ℕ, zero, suc, ◌-◌, ◌*◌, ◌≤◌, ◌<◌, ◌≡◌, refl, Bool, true, false, not, ◌&&◌, List, [], ◌∷◌,
  map, length, sum, All, leb, ◌==◌, if◌then◌else◌, arith, inl, inr, Bool-cases,
}
use adam_abundance.Trends.Rows.{Activity, TrendState}
use adam_abundance.Scout.Monitor.{
  activity, window, recent, earlier, highest, is_dormant, is_declining, is_rising, is_peak,
  classify, state_of, is_fading, compute_trend_state,
}

sum_at_least : (a : ℕ) (xs : List ℕ) → All (λ x. a ≤ x) xs → a * length xs ≤ sum xs
sum_at_least a [] h = omega arith
sum_at_least a (x ∷ xs) h = omega (arith, sum_at_least a xs h.1, h.0, mul-suc a (length xs))

sum_at_most : (a : ℕ) (xs : List ℕ) → All (λ x. x ≤ a) xs → sum xs ≤ a * length xs
sum_at_most a [] h = omega arith
sum_at_most a (x ∷ xs) h = omega (arith, sum_at_most a xs h.1, h.0, mul-suc a (length xs))

length-drop : (n : ℕ) (xs : List ℕ) → length (drop n xs) ≡ length xs - n
length-drop zero xs = omega arith
length-drop (suc n) [] = omega arith
length-drop (suc n) (x ∷ xs) = omega (arith, length-drop n xs)

is_declining-false :
    (s n t m a : ℕ) → a * n ≤ s → t ≤ a * m → zero < n → is_declining s n t m ≡ false
is_declining-false s n t m a low high pos_n = elim (Bool-cases (t == 0)) [
  | inl z ↦ rw z refl
  | inr z ↦ rw z (
      apart (s * m) (t * n)
        (step (mul-le-mul_right m low) (mul-le-mul_right n high) (mul_right_comm a n m))
        (positive z))
]
  where
    step : a * n * m ≤ s * m → t * n ≤ a * m * n → a * n * m ≡ a * m * n → t * n ≤ s * m
    step x y z = omega arith

    at_least_one : (t == 0) ≡ false → 1 ≤ t
    at_least_one z = ground arith

    positive : (t == 0) ≡ false → 1 * 1 ≤ t * n
    positive z = mul-le-mul {n₁ = 1} {m₁ = 1} {n₂ = t} {m₂ = n} (at_least_one z) (omega arith)

    apart : (p q : ℕ) → q ≤ p → 1 * 1 ≤ q → leb (10 * p) (7 * q) ≡ false
    apart p q x y = ground arith

is_dormant-false : (s n a : ℕ) → a * n ≤ s → 50 < a → zero < n → is_dormant s n ≡ false
is_dormant-false s n a low high pos_n = above (mul-le-mul_right {m = 51} {n = a} n (omega arith))
  where
    above : 51 * n ≤ a * n → leb s (50 * n) ≡ false
    above x = ground arith

classify-kept :
    (s n t m top : ℕ)
    → is_dormant s n ≡ false
    → is_declining s n t m ≡ false
    → is_fading (classify s n t m top) ≡ false
classify-kept s n t m top d e = rw (d, e) (rest (is_rising s n t m) (is_peak s n top))
  where
    rest :
        (x y : Bool)
        → is_fading
            (if x then TrendState.rising else if y then TrendState.peak else TrendState.emerging)
          ≡ false
    rest true y = refl
    rest false true = refl
    rest false false = refl

state_of-kept :
    (a : ℕ) (pts : List ℕ)
    → 50 < a
    → All (λ x. a ≤ x) (recent pts)
    → All (λ x. x ≤ a) (earlier pts)
    → is_fading (state_of pts) ≡ false
state_of-kept a [] h r e = refl
state_of-kept a (x ∷ []) h r e = refl
state_of-kept a (x ∷ y ∷ pts) h r e =
    let ps = x ∷ y ∷ pts in
    let low = sum_at_least a (recent ps) r in
    let some_recent = nonempty (length pts) (length-drop (length ps - window) ps) in
    classify-kept (sum (recent ps)) (length (recent ps)) (sum (earlier ps)) (length (earlier ps))
      (highest ps) (is_dormant-false (sum (recent ps)) (length (recent ps)) a low h some_recent)
      (is_declining-false (sum (recent ps)) (length (recent ps)) (sum (earlier ps))
        (length (earlier ps)) a low (sum_at_most a (earlier ps) e) some_recent)
  where
    nonempty : {k : ℕ} (n : ℕ) → k ≡ suc (suc n) - (suc (suc n) - 3) → zero < k
    nonempty n i = omega arith

and_false : (b c : Bool) → c ≡ false → (b && c) ≡ false
and_false true c h = h
and_false false c h = refl

-- A trend whose last three samples are all above the floor, and none of them below an earlier
-- sample of the comparison, is not suppressed, evergreen or not: some level above the floor of 5
-- lies below all the recent samples and above all the earlier ones.
pub compute_trend_state-kept :
    (a : ℕ) (series : List Activity) (evergreen : Bool)
    → 50 < a
    → All (λ x. a ≤ x) (recent (map activity series))
    → All (λ x. x ≤ a) (earlier (map activity series))
    → (compute_trend_state series evergreen).1 ≡ false
unfolding compute_trend_state
compute_trend_state-kept a series evergreen h r e =
    and_false (not evergreen) (is_fading (state_of (map activity series)))
      (state_of-kept a (map activity series) h r e)
