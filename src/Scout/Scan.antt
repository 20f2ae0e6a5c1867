-- ===== src/Scout/Scan.antt =====
-- `TrendScout` of trends/scout.py: what a scan does with the clusters that it has scored, and
-- `_propose` and `_write_flag`. Slack and the outgoing alert change no row.
use adam_abundance.Base.{
  ℕ, ◌+◌, ◌-◌, ◌*◌, String, Bool, true, false, not, ◌&&◌, Option, none, some, List, [], ◌∷◌, map,
  take, leb, ltb, if◌then◌else◌, Result, pure, gets, modify, ◌>>=◌, ◌>>◌,
}
use adam_abundance.Base.Table.{find}
use adam_abundance.Base.Text.{codes, same_codes}
use adam_abundance.Memory.Types.{
  EntryType, EntryStatus, Value, null, text, num, Payload, EntryDraft, MemoryEntry,
}
use adam_abundance.Memory.Store.{Query, query, supersede, write}
use adam_abundance.Governor.Budget.{Governor}
use adam_abundance.Trends.Lifecycle.{
  TrendStatus, LifecycleError, same_trend, content_types, validate_content_types,
}
use adam_abundance.Trends.Rows.{ContentType, Trend, Pipeline, Db, trend_keyed, put_trend}
use adam_abundance.Trends.PipelineRepo.{open_count, create}
use adam_abundance.Trends.TrendRepo.{Sighting, upsert, set_dossier}
use adam_abundance.Engine.Session.{Act, on_db, on_memory}

-- The settings that a scan reads.
pub record TrendConfig : Type 0 where
  pub score_threshold : ℕ
  pub max_open_pipelines : ℕ
  pub auto_dossier : Bool
  pub default_content_types : List String

-- What a scan meets outside the session. The dossier's collection spends and remembers, and gives
-- a dossier with its artifact, or nothing where it raises; `is_breaking` and `url_of` read a
-- headline and a piece of evidence.
pub record Surroundings : Type 0 where
  pub now : ℕ
  pub cfg : TrendConfig
  pub ttls : EntryType → Option ℕ
  pub contains : Payload → Payload → Bool
  pub is_breaking : String → Bool
  pub url_of : String → Option String
  pub collect_dossier : Trend → Governor → Option (String × Option String) × Governor

-- A content type by its name, as the validation has it.
abbrev pub name_among : List String → ContentType → String
name_among [] ct = ""
name_among (n ∷ ns) ct = if same_codes (codes n) ct then n else name_among ns ct

abbrev pub type_names : List ContentType → List String
type_names cts = map (name_among content_types) cts

-- `trend.status = …`, with no transition check.
abbrev pub force_status_of : TrendStatus → Option Trend → Db → Db
force_status_of st none s = s
force_status_of st (some t) s = put_trend (record t { status = st }) s

abbrev pub force_status : ℕ → TrendStatus → Act (Unit {0})
force_status i st = modify (λ s. record s { db = force_status_of st (find i s.db.trends) s.db })

abbrev pub given_urls : (String → Option String) → List String → List String
given_urls url_of [] = []
given_urls url_of (e ∷ es) = elim (url_of e) [
  | none ↦ given_urls url_of es
  | some u ↦ u ∷ given_urls url_of es
]

abbrev pub unless_empty : List String → Option (List String)
unless_empty [] = none
unless_empty (x ∷ xs) = some (x ∷ xs)

abbrev pub score_value : Option ℕ → Value
score_value none = null
score_value (some n) = num n

abbrev pub note_payload : Option String → Payload
note_payload none = []
note_payload (some n) = ("note", text n) ∷ []

module _ (w : Surroundings) where
  abbrev pub flags_of : Trend → Query
  flags_of t = record {
    brand = some t.brand;
    include_portfolio = true;
    types = EntryType.flag ∷ [];
    source_agent = none;
    source_system = none;
    verified = none;
    since = none;
    fresh_within_seconds = none;
    payload_contains = some (("kind", text "competitor_trend") ∷ ("trend_id", num t.id) ∷ []);
    status = some EntryStatus.active;
    limit = 10;
  }

  unfoldable pub flag_draft : Trend → Option String → EntryDraft
  flag_draft t note = record {
    type = EntryType.flag;
    brand = t.brand;
    source_agent = "trend_scout";
    source_system = some "trend_scan";
    payload =
        ("kind", text "competitor_trend")
        ∷ ("trend_id", num t.id)
        ∷ ("headline", text t.headline)
        ∷ ("score", score_value t.score)
        ∷ ("severity", text (if w.is_breaking t.headline then "high" else "medium"))
        ∷ note_payload note;
    verified = false;
    confidence = none;
    source_urls = unless_empty (given_urls w.url_of (take 5 t.evidence));
    expires_at = none;
    ttl_seconds = some (3 * 24 * 3600);
    status = none;
  }

  abbrev pub ids_of : List MemoryEntry → List ℕ
  ids_of es = map (λ e. e.id) es

  -- The flags that the trend already has are superseded by the new one.
  unfoldable pub write_flag : Trend → Option String → Act MemoryEntry
  unfolding flag_draft
  write_flag t note = do
    stale ← gets (λ s. query w.contains w.now (flags_of t) s.governor.memory)
    on_memory (λ m. let (n, m') = supersede (ids_of stale) m in (Result.ok n, m'))
    on_memory (write w.ttls w.now false (flag_draft t note))

  abbrev pub stored_dossier : Trend → Option (String × Option String) → Act (Unit {0})
  stored_dossier t none = pure tt
  stored_dossier t (some d) = on_db (set_dossier w.now t.id d.0 d.1)

  abbrev pub build_dossier : Trend → Act (Unit {0})
  build_dossier t s =
      let (d, g) = w.collect_dossier t s.governor in stored_dossier t d (record s { governor = g })

  abbrev pub dossier_first : Trend → Act (Unit {0})
  dossier_first t =
      if w.cfg.auto_dossier
      then (do force_status t.id TrendStatus.dossier_building; build_dossier t)
      else pure tt

  -- `except LifecycleError`: the trend has an open pipeline, so it is proposed already.
  abbrev pub proposed_with : Trend → Result LifecycleError Pipeline → Act Bool
  proposed_with t (Result.err e) = do force_status t.id TrendStatus.proposed; pure false
  proposed_with t (Result.ok p) = do
    force_status t.id TrendStatus.proposed
    write_flag t none
    pure true

  abbrev pub create_for : Trend → List ContentType → Act Bool
  create_for t cts s =
      let (r, d) = create w.now (some t.id) t.brand (type_names cts) "trend_scout" none s.db in
      proposed_with t r (record s { db = d })

  abbrev pub propose_under : Trend → List ContentType → ℕ → Act Bool
  propose_under t cts n =
      if leb w.cfg.max_open_pipelines n
      then (do write_flag t (some "proposal cap reached"); pure false)
      else (do dossier_first t; create_for t cts)

  abbrev pub propose_valid : Trend → Result LifecycleError (List ContentType) → Act Bool
  propose_valid t (Result.err e) = pure false
  propose_valid t (Result.ok cts) = do
    n ← gets (λ s. open_count t.brand s.db)
    propose_under t cts n

  unfoldable pub propose : Trend → Act Bool
  unfolding write_flag
  propose t = propose_valid t (validate_content_types w.cfg.default_content_types)

-- The counts of `scan`, and the proposals that it may still make.
pub record ScanSummary : Type 0 where
  pub new_trends : ℕ
  pub updated_trends : ℕ
  pub proposed : ℕ
  pub suppressed : ℕ
  pub proposals_left : ℕ

abbrev pub count_seen : Bool → ScanSummary → ScanSummary
count_seen true t = record t { new_trends = t.new_trends + 1 }
count_seen false t = record t { updated_trends = t.updated_trends + 1 }

abbrev pub count_proposed : Bool → ScanSummary → ScanSummary
count_proposed true t = record t {
  proposed = t.proposed + 1;
  proposals_left = t.proposals_left - 1;
}
count_proposed false t = t

module _ (w : Surroundings) where
  abbrev pub is_worth : Trend → ℕ → ScanSummary → Bool
  is_worth t score n =
      same_trend t.status TrendStatus.detected
      && leb w.cfg.score_threshold score
      && not t.suppressed
      && ltb 0 n.proposals_left

  abbrev pub propose_if : Bool → Trend → ScanSummary → Act ScanSummary
  propose_if true t n = do ok ← propose w t; pure (count_proposed ok n)
  propose_if false t n = pure n

  abbrev pub weigh : Sighting → Option Trend × Bool → ScanSummary → Act ScanSummary
  weigh g (none, created) n = pure (record n { suppressed = n.suppressed + 1 })
  weigh g (some t, created) n = propose_if (is_worth t g.score n) t (count_seen created n)

  -- The loop of `scan`, over the sightings that the clusters give, the largest cluster first.
  unfoldable pub scan_sightings : List Sighting → ScanSummary → Act ScanSummary
  unfolding propose
  scan_sightings [] n = pure n
  scan_sightings (g ∷ gs) n = do
    seen ← on_db (upsert w.now g)
    n' ← weigh g seen n
    scan_sightings gs n'

-- `_MAX_NEW_PROPOSALS_PER_SCAN`
abbrev pub max_new_proposals : ℕ
max_new_proposals = 3

abbrev pub nothing_seen : ScanSummary
nothing_seen = record {
  new_trends = 0;
  updated_trends = 0;
  proposed = 0;
  suppressed = 0;
  proposals_left = max_new_proposals;
}
