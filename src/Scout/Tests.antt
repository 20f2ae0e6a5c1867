-- ===== src/Scout/Tests.antt =====
-- A concrete scan, and a concrete series of activity.
use adam_abundance.Base.{
  ◌+◌, ℤ, refl, ℕ, ◌≤◌, ◌≡◌, String, true, false, none, some, List, [], ◌∷◌, arith, ok, Bool,
  str_eq, count_if,
}
use adam_abundance.Memory.Types.{default_ttl}
use adam_abundance.Governor.Caps.{default_caps}
use adam_abundance.Trends.Rows.{Activity}
use adam_abundance.Trends.PipelineRepo.{open_count}
use adam_abundance.Trends.TrendRepo.{Sighting}
use adam_abundance.Engine.Session.{Session}
use adam_abundance.Scout.Monitor.{activity, compute_trend_state}
use adam_abundance.Scout.Fading.{compute_trend_state-kept}
use adam_abundance.Scout.Weights.{
  asked, TrendScoreWeight, Raw, number, missing, default_score_weights, lookup, load_effective,
  load_overrides, save_weights, reset_weights,
}
use adam_abundance.Scout.Tuning.{asked_in, first_of, save_weights_lem}
use adam_abundance.Scout.Reset.{reset_weights_lem}
use adam_abundance.Scout.Clusters.{Signal, Patterns, cluster_signals}
use adam_abundance.Scout.Grouping.{all_items, first_titled, all_items-cluster_signals}
use adam_abundance.Scout.Scan.{
  Surroundings, ScanSummary, nothing_seen, max_new_proposals, scan_sightings,
}
use adam_abundance.Scout.Made.{pipeline_rows}
use adam_abundance.Scout.Proposals.{scan_sightings_lem}

abbrev surroundings : Surroundings
surroundings = record {
  now = 100;
  cfg = record {
    score_threshold = 60;
    max_open_pipelines = 1;
    auto_dossier = true;
    default_content_types = "article" ∷ [];
  };
  ttls = default_ttl;
  contains = λ p q. false;
  is_breaking = λ h. true;
  url_of = λ e. some e;
  collect_dossier = λ t g. (some ("{}", none), g);
}

abbrev empty_session : Session
empty_session = record {
  db = record {
    trends = [];
    activity = [];
    pipelines = [];
    jobs = [];
    next_trend = 1;
    next_pipeline = 1;
    next_job = 1;
  };
  governor = record {
    caps = default_caps;
    eff_caps = none;
    setting = record { row = none; readable = true };
    ledger = [];
    memory = record { entries = []; next_id = 1 };
  };
  personas = record { rows = []; next_id = 1 };
  baselines = [];
  costs = [];
}

abbrev sighting : String → Sighting
sighting key = record {
  brand = "hotcars";
  cluster_key = key;
  headline = key;
  score = 70;
  score_breakdown = "{}";
  velocity = 2;
  source_count = 3;
  signal_count = 4;
  covered_by_us = none;
  entities = "{}";
  evidence = "https://example.org" ∷ [];
  ttl_hours = 48;
  dedup_days = 5;
  origin = "scout";
}

abbrev sightings : List Sighting
sightings = sighting "ford" ∷ sighting "audi" ∷ []

scan_sightings_lem_example :
    (open_count "hotcars" (scan_sightings surroundings sightings nothing_seen empty_session).1.db
      ≤ 1)
    × (pipeline_rows (scan_sightings surroundings sightings nothing_seen empty_session).1
        ≤ pipeline_rows empty_session + max_new_proposals)
    × ((k : ScanSummary)
        → (scan_sightings surroundings sightings nothing_seen empty_session).0 ≡ ok k
        → pipeline_rows (scan_sightings surroundings sightings nothing_seen empty_session).1
          ≡ pipeline_rows empty_session + k.proposed)
unfolding open_count
scan_sightings_lem_example =
    scan_sightings_lem surroundings sightings "hotcars" 1 empty_session (omega arith) (omega arith)

abbrev sample : ℕ → Activity
sample x = record {
  trend_id = 1;
  as_of = 7;
  external_score = some x;
  onsite_sessions = none;
  article_count = none;
}

abbrev series : List Activity
series = sample 40 ∷ sample 80 ∷ sample 90 ∷ sample 85 ∷ []

compute_trend_state-kept_example : (compute_trend_state series false).1 ≡ false
unfolding activity
compute_trend_state-kept_example =
    compute_trend_state-kept 60 series false (omega arith)
      (omega arith, (omega arith, (omega arith, tt))) (omega arith, tt)

-- Every title reads as the same two words, and names no make.
abbrev patterns : Patterns
patterns = record { words = λ t. "recall" ∷ "brakes" ∷ []; makes = λ t. [] }

abbrev signal : String → Signal
signal url = record { url = url; title = "Recall: brakes"; snippet = "" }

abbrev signals : List Signal
signals = signal "a.com/x?u=1" ∷ signal "a.com/x/" ∷ signal "b.com/y" ∷ []

abbrev is_second : Signal → Bool
is_second it = str_eq it.url "b.com/y"

all_items-cluster_signals_example :
    count_if is_second (all_items (cluster_signals patterns signals))
    ≡ count_if is_second (first_titled patterns [] signals)
all_items-cluster_signals_example = all_items-cluster_signals is_second patterns signals

abbrev weights_form : List (String × Raw)
weights_form = ("breaking", number (ℤ.pos 900000)) ∷ ("watchlist", missing) ∷ []

abbrev saved_rows : List TrendScoreWeight
saved_rows = record { key = "watchlist"; value = 70000; updated_by = none } ∷ []

save_weights_lem_example :
    load_effective (save_weights weights_form none saved_rows).1 "breaking"
    ≡ first_of (asked_in weights_form "breaking") (load_effective saved_rows "breaking")
save_weights_lem_example =
    save_weights_lem weights_form none saved_rows "breaking" ((refl, tt), (tt, tt))

-- A weight is cut to its range, and the form changes no other one.
breaking_weight :
    (load_effective (save_weights weights_form none saved_rows).1 "breaking" ≡ some 400000)
    × (load_effective (save_weights weights_form none saved_rows).1 "watchlist" ≡ some 70000)
unfolding save_weights load_effective asked
breaking_weight = (refl, refl)

reset_weights_lem_example :
    (load_effective (reset_weights none saved_rows).1 "watchlist"
      ≡ lookup "watchlist" default_score_weights)
    × (load_overrides (reset_weights none saved_rows).1 "watchlist" ≡ none)
reset_weights_lem_example = reset_weights_lem none saved_rows "watchlist"
