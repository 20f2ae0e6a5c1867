-- ===== src/Trends/Sightings.antt =====
-- Sightings of trends and their daily samples (`TrendRepo.upsert` and `record_activity` of
-- trends/repo.py).
use adam_abundance.Base.{
  ℕ, suc, ◌+◌, ◌≡◌, refl, ap, ◌∙◌, String, true, false, ◌&&◌, Option, none, some, List, [], ◌∷◌,
  ◌++◌, inl, inr, Bool-cases, Result, length, length-append, str_eq, eq_refl, ◌==◌, arith,
}
use adam_abundance.Base.Table.{put, Keyed}
use adam_abundance.Trends.Rows.{Trend, Activity, Db, trend_keyed}
use adam_abundance.Trends.TrendRepo.{
  Sighting, find_by_cluster_key, upsert, detected_trend, refreshed, later_of, put_sample,
  record_activity,
}

length-put :
    {A : Type 0} ⦃k : Keyed A⦄ (i : ℕ) (r : A) (xs : List A) → length (put i r xs) ≡ length xs
length-put i r [] = refl
length-put ⦃k⦄ i r (x ∷ xs) = elim (Bool-cases (k.key x == i)) [
  | inl b ↦ rw b refl
  | inr b ↦ rw b (ap suc (length-put i r xs))
]

-- The newest of some trends is a trend.
no_none : (t : Trend) (rest : Option Trend) → some (later_of t rest) ≡ none → ⊥
no_none t rest e = cc

find_by_cluster_key-append :
    (key brand : String) (ts : List Trend) (t : Trend)
    → find_by_cluster_key key brand ts ≡ none
    → (str_eq t.cluster_key key && str_eq t.brand brand) ≡ true
    → find_by_cluster_key key brand (ts ++ t ∷ []) ≡ some t
unfolding find_by_cluster_key
find_by_cluster_key-append key brand [] t e h = rw h refl
find_by_cluster_key-append key brand (x ∷ ts) t e h =
    elim (Bool-cases (str_eq x.cluster_key key && str_eq x.brand brand)) [
      | inl b ↦ absurd (no_none x (find_by_cluster_key key brand ts) (rw b at e))
      | inr b ↦ rw b (find_by_cluster_key-append key brand ts t (rw b at e) h)
    ]

-- A sighting of a cluster that no trend of the brand has yet creates one trend, and the same
-- sighting again, at any time, creates none: it refreshes the trend that was created.
upsert-once :
    (now later : ℕ) (g : Sighting) (s : Db)
    → find_by_cluster_key g.cluster_key g.brand s.trends ≡ none
    → let t = detected_trend now g s.next_trend in
      let s' = (upsert now g s).1 in
      ((upsert now g s).0 ≡ Result.ok (some t, true))
      × ((upsert later g s').0 ≡ Result.ok (some (refreshed later g t), false))
      × (length (upsert later g s').1.trends ≡ length s.trends + 1)
unfolding upsert
upsert-once now later g s e =
    let t : Trend = detected_trend now g s.next_trend in
    let again =
      find_by_cluster_key-append g.cluster_key g.brand s.trends t e
        (rw (eq_refl g.cluster_key, eq_refl g.brand) refl) in
    rw (e, again)
      (
        refl,
        refl,
        length-put s.next_trend (refreshed later g t) (s.trends ++ t ∷ [])
            ∙ length-append s.trends (t ∷ []),
      )

-- Two samples for one trend and day leave the second alone: recording both is recording the
-- second only.
put_sample-put_sample :
    (now : ℕ) (x y : Activity) (xs : List Activity)
    → y.trend_id ≡ x.trend_id
    → y.as_of ≡ x.as_of
    → put_sample now x (put_sample now y xs) ≡ put_sample now x xs
unfolding put_sample
put_sample-put_sample now x y [] p q = rw (p, q) (ground arith)
put_sample-put_sample now x y (a ∷ xs) p q =
    ground (arith, p, q, put_sample-put_sample now x y xs p q)

-- Recording two samples for one trend and day is recording the second only.
record_activity-record_activity :
    (now : ℕ) (x y : Activity) (s : Db)
    → y.trend_id ≡ x.trend_id
    → y.as_of ≡ x.as_of
    → record_activity now x (record_activity now y s).1 ≡ record_activity now x s
unfolding record_activity
record_activity-record_activity now x y s p q =
    ap (λ xs. (Result.ok tt, record s { activity = xs }))
      (put_sample-put_sample now x y s.activity p q)
