-- ===== src/Trends/TrendRepo.antt =====
-- `TrendRepo` of trends/repo.py; `now` is the reading of the clock.
use adam_abundance.Base.{
  ℕ, ◌+◌, ◌*◌, String, Bool, true, false, not, ◌&&◌, Option, none, some, List, [], ◌∷◌, ◌++◌, map,
  any, keep, take, length, max, ltb, ◌==◌, if◌then◌else◌, str_eq, or_else, is_none, Result, pure,
  raise_if, gets, modify, ◌>>=◌, ◌>>◌,
}
use adam_abundance.Base.Table.{find}
use adam_abundance.Trends.Lifecycle.{
  PipelineStatus, TrendStatus, human_required, bad_trend_move, trend_not_found, is_non_human,
  trend_may, same_pipeline, is_open_trend,
}
use adam_abundance.Trends.Rows.{
  Trend, TrendState, Activity, Pipeline, note, Db, Action, trend_keyed, pipeline_keyed, put_trend,
  or_raise,
}

-- The arguments of `upsert`.
pub record Sighting : Type 0 where
  pub brand : String
  pub cluster_key : String
  pub headline : String
  pub score : ℕ
  pub score_breakdown : String
  pub velocity : ℕ
  pub source_count : ℕ
  pub signal_count : ℕ
  pub covered_by_us : Option Bool
  pub entities : String
  pub evidence : List String
  pub ttl_hours : ℕ
  pub dedup_days : ℕ
  pub origin : String

abbrev pub later_of : Trend → Option Trend → Trend
later_of t none = t
later_of t (some u) = if ltb t.created_at u.created_at then u else t

-- The newest trend of a cluster and brand; among trends of one age, the earlier row.
unfoldable pub find_by_cluster_key : String → String → List Trend → Option Trend
find_by_cluster_key key brand [] = none
find_by_cluster_key key brand (t ∷ ts) =
    let rest = find_by_cluster_key key brand ts in
    if str_eq t.cluster_key key && str_eq t.brand brand then some (later_of t rest) else rest

-- `_DEDUP_SKIP_STATUSES`
abbrev pub is_skipped : TrendStatus → Bool
is_skipped TrendStatus.dismissed = true
is_skipped TrendStatus.declined = true
is_skipped TrendStatus.expired = true
is_skipped TrendStatus.completed = true
is_skipped _ = false

abbrev pub nonempty_or : String → String → String
nonempty_or h old = if str_eq h "" then old else h

abbrev pub covered_or : Option Bool → Option Bool → Option Bool
covered_or none old = old
covered_or (some b) old = some b

module _ (now : ℕ) where
  abbrev pub refreshed : Sighting → Trend → Trend
  refreshed g t = record t {
    headline = nonempty_or g.headline t.headline;
    score = some (max (or_else t.score 0) g.score);
    score_breakdown = g.score_breakdown;
    velocity = g.velocity;
    source_count = some (max (or_else t.source_count 0) g.source_count);
    signal_count = some (max (or_else t.signal_count 0) g.signal_count);
    covered_by_us = covered_or g.covered_by_us t.covered_by_us;
    entities = g.entities;
    evidence = take 60 g.evidence;
    last_seen_at = some now;
  }

  abbrev pub detected_trend : Sighting → ℕ → Trend
  detected_trend g id = record {
    id = id;
    brand = g.brand;
    cluster_key = g.cluster_key;
    headline = g.headline;
    score = some g.score;
    score_breakdown = g.score_breakdown;
    velocity = g.velocity;
    source_count = some g.source_count;
    signal_count = some g.signal_count;
    covered_by_us = g.covered_by_us;
    entities = g.entities;
    evidence = take 60 g.evidence;
    status = TrendStatus.detected;
    origin = g.origin;
    created_at = now;
    last_seen_at = some now;
    expires_at = some (now + g.ttl_hours * 3600);
    dossier = none;
    dossier_ref = none;
    state = none;
    suppressed = false;
    suppressed_by = none;
    peak_at = none;
  }

  abbrev pub insert_new : Sighting → Action (Option Trend × Bool)
  insert_new g s = (
    Result.ok (some (detected_trend g s.next_trend), true),
    record s {
      trends = s.trends ++ detected_trend g s.next_trend ∷ [];
      next_trend = s.next_trend + 1;
    },
  )

  -- `now - seen < dedup_days`, written without the subtraction.
  abbrev pub in_dedup_window : Sighting → Trend → Bool
  in_dedup_window g t = ltb now (or_else t.last_seen_at t.created_at + g.dedup_days * 86400)

  abbrev pub refresh : Sighting → Trend → Action (Option Trend × Bool)
  refresh g t = do modify (put_trend (refreshed g t)); pure (some (refreshed g t), false)

  abbrev pub upsert_over : Sighting → Option Trend → Action (Option Trend × Bool)
  upsert_over g none = insert_new g
  upsert_over g (some t) =
      if is_skipped t.status
      then (if in_dedup_window g t then pure (none, false) else insert_new g)
      else if is_open_trend t.status
      then refresh g t
      else insert_new g

  unfoldable pub upsert : Sighting → Action (Option Trend × Bool)
  upsert g s = upsert_over g (find_by_cluster_key g.cluster_key g.brand s.trends) s

  abbrev set_status_of : TrendStatus → Option Trend → Action (Unit {0})
  set_status_of status none = pure tt
  set_status_of status (some t) = do
    raise_if (not (trend_may t.status status)) (bad_trend_move t.status status)
    modify (put_trend (record t { status = status }))

  unfoldable pub set_status : ℕ → TrendStatus → Action (Unit {0})
  set_status i status s = set_status_of status (find i s.trends) s

  abbrev set_dossier_of : String → Option String → Option Trend → Db → Db
  set_dossier_of dossier ref none s = s
  set_dossier_of dossier ref (some t) s =
      put_trend (record t { dossier = some dossier; dossier_ref = ref }) s

  unfoldable pub set_dossier : ℕ → String → Option String → Action (Unit {0})
  set_dossier i dossier ref = modify (λ s. set_dossier_of dossier ref (find i s.trends) s)

  unfoldable pub dismiss : ℕ → String → Action Trend
  dismiss i actor = do
    raise_if (is_non_human actor) human_required
    found ← gets (λ s. find i s.trends)
    t ← or_raise found (trend_not_found i)
    raise_if (not (trend_may t.status TrendStatus.dismissed))
        (bad_trend_move t.status TrendStatus.dismissed)
    let t' = record t { status = TrendStatus.dismissed; last_seen_at = some now }
    modify (put_trend t')
    pure t'

  abbrev past : Option ℕ → Bool
  past none = false
  past (some t) = ltb t now

  abbrev unactioned : TrendStatus → Bool
  unactioned TrendStatus.detected = true
  unactioned TrendStatus.dossier_building = true
  unactioned TrendStatus.proposed = true
  unactioned _ = false

  abbrev pub is_stale_trend : Trend → Bool
  is_stale_trend t = unactioned t.status && past t.expires_at

  abbrev pub expire_trend : Trend → Trend
  expire_trend t = if is_stale_trend t then record t { status = TrendStatus.expired } else t

  abbrev pub of_some : List ℕ → Option ℕ → Bool
  of_some ids none = false
  of_some ids (some i) = any (λ j. i == j) ids

  abbrev pub is_pending_of : List ℕ → Pipeline → Bool
  is_pending_of ids p =
      same_pipeline p.status PipelineStatus.pending_approval && of_some ids p.trend_id

  abbrev pub expire_pending : List ℕ → Pipeline → Pipeline
  expire_pending ids p =
      if is_pending_of ids p
      then record p {
        status = PipelineStatus.expired;
        closed_at = some now;
        close_reason = some "trend expired before a decision";
        events =
            p.events
            ++ record {
              at = now;
              actor = "system";
              event = "expired";
              detail = note "trend expired";
            }
              ∷ [];
      }
      else p

  abbrev pub stale_ids : Db → List ℕ
  stale_ids s = map (λ t. t.id) (keep is_stale_trend s.trends)

  -- With no stale trend both updates find nothing, as the early return has it.
  unfoldable pub expire_stale : Action ℕ
  expire_stale s = (
    Result.ok (length (stale_ids s)),
    record s {
      trends = map expire_trend s.trends;
      pipelines = map (expire_pending (stale_ids s)) s.pipelines;
    },
  )

  abbrev pub is_sample : ℕ → ℕ → Activity → Bool
  is_sample i as_of a = a.trend_id == i && a.as_of == as_of

  -- One sample for each trend and day: a second one replaces the first.
  unfoldable pub put_sample : Activity → List Activity → List Activity
  put_sample x [] = x ∷ []
  put_sample x (a ∷ rest) =
      if is_sample x.trend_id x.as_of a then x ∷ rest else a ∷ put_sample x rest

  unfoldable pub record_activity : Activity → Action (Unit {0})
  unfolding put_sample
  record_activity x = modify (λ s. record s { activity = put_sample x s.activity })

  abbrev first_peak : Option ℕ → Option ℕ → Option ℕ
  first_peak none old = old
  first_peak (some p) none = some p
  first_peak (some p) (some old) = some old

  abbrev pub with_lifecycle : TrendState → Bool → Option ℕ → Trend → Trend
  with_lifecycle state suppressed peak_at t = record t {
    state = some state;
    peak_at = first_peak peak_at t.peak_at;
    suppressed = if is_none t.suppressed_by then suppressed else t.suppressed;
  }

  abbrev set_lifecycle_of : TrendState → Bool → Option ℕ → Option Trend → Db → Db
  set_lifecycle_of state suppressed peak_at none s = s
  set_lifecycle_of state suppressed peak_at (some t) s =
      put_trend (with_lifecycle state suppressed peak_at t) s

  unfoldable pub set_lifecycle : ℕ → TrendState → Bool → Option ℕ → Action (Unit {0})
  set_lifecycle i state suppressed peak_at =
      modify (λ s. set_lifecycle_of state suppressed peak_at (find i s.trends) s)
