-- ===== src/Scout/Monitor.antt =====
-- trends/monitor.py: a trend's state from its activity, and whether it is suppressed. An activity
-- is a number of tenths, an average an exact fraction, so the floats' rounding is left out.
use adam_abundance.Base.{
  ℕ, ◌-◌, ◌*◌, Bool, true, false, not, ◌&&◌, none, some, List, [], ◌∷◌, map, length, sum, max, leb,
  ◌==◌, if◌then◌else◌, or_else, take, drop,
}
use adam_abundance.Trends.Rows.{Activity, TrendState}

-- External interest when present, else the sessions on site.
unfoldable pub activity : Activity → ℕ
activity p = elim p.external_score [ none ↦ 10 * or_else p.onsite_sessions 0 | some x ↦ x ]

-- WINDOW
abbrev pub window : ℕ
window = 3

-- `pts[-window:]` and `pts[:-window]`
abbrev pub recent : List ℕ → List ℕ
recent pts = drop (length pts - window) pts

abbrev pub older : List ℕ → List ℕ
older pts = take (length pts - window) pts

abbrev pub or_list : List ℕ → List ℕ → List ℕ
or_list [] ys = ys
or_list (x ∷ xs) ys = x ∷ xs

-- `pts[-2 * window:-window] or pts[:-window] or pts[:1]`
abbrev pub earlier : List ℕ → List ℕ
earlier pts = or_list (recent (older pts)) (or_list (older pts) (take 1 pts))

abbrev pub highest : List ℕ → ℕ
highest [] = 0
highest (x ∷ xs) = max x (highest xs)

-- The tests of the sum and the number of the recent samples, and of the earlier ones: at most the
-- floor of 5; at least 30% below; at least 25% above; at least 80% of the highest.
abbrev pub is_dormant : ℕ → ℕ → Bool
is_dormant s n = leb s (50 * n)

abbrev pub is_declining : ℕ → ℕ → ℕ → ℕ → Bool
is_declining s n t m = not (t == 0) && leb (10 * (s * m)) (7 * (t * n))

abbrev pub is_rising : ℕ → ℕ → ℕ → ℕ → Bool
is_rising s n t m = not (t == 0) && leb (5 * (t * n)) (4 * (s * m))

abbrev pub is_peak : ℕ → ℕ → ℕ → Bool
is_peak s n top = leb (4 * (top * n)) (5 * s)

abbrev pub classify : ℕ → ℕ → ℕ → ℕ → ℕ → TrendState
classify s n t m top =
    if is_dormant s n
    then TrendState.dormant
    else if is_declining s n t m
    then TrendState.declining
    else if is_rising s n t m
    then TrendState.rising
    else if is_peak s n top
    then TrendState.peak
    else TrendState.emerging

abbrev pub state_of : List ℕ → TrendState
state_of [] = TrendState.emerging
state_of (x ∷ []) = TrendState.emerging
state_of (x ∷ y ∷ pts) =
    let all_pts = x ∷ y ∷ pts in
    classify (sum (recent all_pts)) (length (recent all_pts)) (sum (earlier all_pts))
      (length (earlier all_pts)) (highest all_pts)

-- `_DECLINE_STATES`
abbrev pub is_fading : TrendState → Bool
is_fading TrendState.declining = true
is_fading TrendState.dormant = true
is_fading _ = false

-- The state and the suppression, of samples from the oldest to the newest.
unfoldable pub compute_trend_state : List Activity → Bool → TrendState × Bool
unfolding activity
compute_trend_state series evergreen =
    let state = state_of (map activity series) in (state, not evergreen && is_fading state)
