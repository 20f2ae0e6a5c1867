-- ===== src/Scout/Cap.antt =====
-- The cap on open pipelines under the scout's proposals.
use mathlib.Core.Path.{subst}
use adam_abundance.Base.{
  ℕ, ◌+◌, ◌≤◌, ◌<◌, ◌≡◌, refl, sym, ap, ◌∙◌, String, Bool, true, false, ◌&&◌, Option, none, some,
  List, [], ◌∷◌, ◌++◌, count_if, leb, str_eq, if◌then◌else◌, arith, inl, inr, Bool-cases,
  Option-cases, Result, ok, err, ◌>>=◌, eq_iff,
}
use adam_abundance.Base.Along.{
  Preorder, Along, Along-bind_at, Keeps, Keeps-bind, Keeps-gets, Keeps-pure,
}
use adam_abundance.Base.Table.{find}
use adam_abundance.Memory.Types.{MemoryEntry}
use adam_abundance.Memory.Store.{query, supersede, write}
use adam_abundance.Trends.Lifecycle.{
  LifecycleError, TrendStatus, is_open_pipeline, is_open_trend, validate_content_types,
}
use adam_abundance.Trends.Rows.{Text, ContentType, Trend, Pipeline, Db, lift, trend_keyed}
use adam_abundance.Trends.PipelineRepo.{
  open_count, open_for_trend, create, insert_pipeline, new_pipeline,
}
use adam_abundance.Trends.TrendRepo.{
  Sighting, find_by_cluster_key, is_skipped, in_dedup_window, upsert, upsert_over, set_dossier,
}
use adam_abundance.Engine.Session.{Session, Act, on_db}
use adam_abundance.Engine.Lawful.{Within, Within-Preorder, Keeps-on_db, Keeps-on_memory}
use adam_abundance.Scout.Scan.{
  Surroundings, type_names, force_status_of, force_status, flags_of, flag_draft, ids_of, write_flag,
  stored_dossier, build_dossier, dossier_first, proposed_with, create_for, propose_under,
  propose_valid, propose, ScanSummary, count_seen, count_proposed, is_worth, propose_if, weigh,
  scan_sightings,
}

abbrev pub SamePipelines : Db → Db → Type 0
SamePipelines s s' = s'.pipelines ≡ s.pipelines

pub upsert-SamePipelines : (now : ℕ) (g : Sighting) → Along SamePipelines (upsert now g)
unfolding upsert
upsert-SamePipelines now g s = over (find_by_cluster_key g.cluster_key g.brand s.trends)
  where
    over : (t : Option Trend) → (upsert_over now g t s).1.pipelines ≡ s.pipelines
    over none = refl
    over (some t) = elim (Bool-cases (is_skipped t.status)) [
      | inl a ↦ elim (Bool-cases (in_dedup_window now g t)) [
        | inl b ↦ rw (a, b) refl
        | inr b ↦ rw (a, b) refl
      ]
      | inr a ↦ elim (Bool-cases (is_open_trend t.status)) [
        | inl b ↦ rw (a, b) refl
        | inr b ↦ rw (a, b) refl
      ]
    ]

set_dossier-SamePipelines :
    (now i : ℕ) (d : String) (ref : Option String) → Along SamePipelines (set_dossier now i d ref)
unfolding set_dossier
set_dossier-SamePipelines now i d ref s = elim (Option-cases (find i s.trends)) [
  | inl e ↦ rw e refl
  | inr (t, e) ↦ rw e refl
]

force_status_of-pipelines :
    (st : TrendStatus) (t : Option Trend) (s : Db)
    → (force_status_of st t s).pipelines ≡ s.pipelines
force_status_of-pipelines st none s = refl
force_status_of-pipelines st (some t) s = refl

SamePipelines-Preorder : Preorder SamePipelines
SamePipelines-Preorder = record { same = λ s. refl; then = λ a b c h k. k ∙ h }

P : Preorder (Within SamePipelines)
P = Within-Preorder SamePipelines-Preorder

force_status-Same : (i : ℕ) (st : TrendStatus) → Keeps (Within SamePipelines) (force_status i st)
force_status-Same i st = record {
  along = λ s. force_status_of-pipelines st (find i s.db.trends) s.db;
}

module _ (w : Surroundings) where
  pub write_flag-Same :
      (t : Trend) (note : Option String) → Keeps (Within SamePipelines) (write_flag w t note)
  unfolding write_flag
  write_flag-Same t note =
      Keeps-bind P (Keeps-gets P (λ s. query w.contains w.now (flags_of w t) s.governor.memory))
        λ (stale : List MemoryEntry).
          Keeps-bind P
            (Keeps-on_memory SamePipelines SamePipelines-Preorder
              (λ m. let (k, m') = supersede (ids_of w stale) m in (Result.ok k, m')))
            λ _.
              Keeps-on_memory SamePipelines SamePipelines-Preorder
                (write w.ttls w.now false (flag_draft w t note))

  stored_dossier-Same :
      (t : Trend) (d : Option (String × Option String))
      → Keeps (Within SamePipelines) (stored_dossier w t d)
  stored_dossier-Same t none = Keeps-pure P tt
  stored_dossier-Same t (some d) =
      Keeps-on_db SamePipelines (set_dossier w.now t.id d.0 d.1)
        (set_dossier-SamePipelines w.now t.id d.0 d.1)

  build_dossier-Same : (t : Trend) → Keeps (Within SamePipelines) (build_dossier w t)
  build_dossier-Same t = record {
    along = λ s.
        (stored_dossier-Same t (w.collect_dossier t s.governor).0).along
          (record s { governor = (w.collect_dossier t s.governor).1 });
  }

  pub dossier_first-Same : (t : Trend) → Keeps (Within SamePipelines) (dossier_first w t)
  dossier_first-Same t = elim (Bool-cases w.cfg.auto_dossier) [
    | inl b ↦ simp b (
        Keeps-bind P (force_status-Same t.id TrendStatus.dossier_building)
          λ _. build_dossier-Same t)
    | inr b ↦ simp b (Keeps-pure P tt)
  ]

  pub proposed_with-Same :
      (t : Trend) (r : Result LifecycleError Pipeline)
      → Keeps (Within SamePipelines) (proposed_with w t r)
  proposed_with-Same t (err e) =
      Keeps-bind P (force_status-Same t.id TrendStatus.proposed) λ _. Keeps-pure P false
  proposed_with-Same t (ok p) =
      Keeps-bind P (force_status-Same t.id TrendStatus.proposed)
        λ _. Keeps-bind P (write_flag-Same t none) λ _. Keeps-pure P true

-- A pipeline that is added, among the open ones of a brand.
open_count-insert :
    (b : String) (p : Pipeline) (ps : List Pipeline)
    → count_if (λ q. str_eq q.brand b && is_open_pipeline q.status) (ps ++ p ∷ [])
      ≡ count_if (λ q. str_eq q.brand b && is_open_pipeline q.status) ps
        + (if str_eq p.brand b && is_open_pipeline p.status then 1 else 0)
open_count-insert b p [] = omega arith
open_count-insert b p (q ∷ ps) = omega (arith, open_count-insert b p ps)

module _ (b : String) (n : ℕ) where
  -- At most n open pipelines of the brand stay at most n.
  abbrev pub Under : Db → Db → Type 0
  Under s s' = open_count b s ≤ n → open_count b s' ≤ n

  Under-Preorder : Preorder Under
  Under-Preorder = record { same = λ s h. h; then = λ s t u h k x. k (h x) }

  U : Preorder (Within Under)
  U = Within-Preorder Under-Preorder

  same-Under : (s s' : Db) → s'.pipelines ≡ s.pipelines → Under s s'
  unfolding open_count
  same-Under s s' e h =
      subst (λ ps. count_if (λ q. str_eq q.brand b && is_open_pipeline q.status) ps ≤ n) (sym e) h

  counted :
      (now : ℕ) (p : ℕ → Pipeline) (s : Db)
      → open_count b (insert_pipeline now p s).1
        ≡ open_count b s
          + (if str_eq (p s.next_pipeline).brand b && is_open_pipeline (p s.next_pipeline).status
              then 1
              else 0)
  unfolding open_count
  counted now p s = open_count-insert b (p s.next_pipeline) s.pipelines

  fits : (x : Bool) (c c' : ℕ) → c' ≡ c + (if x then 1 else 0) → c < n → c' ≤ n
  fits true c c' e h = omega arith
  fits false c c' e h = omega arith

  stays : (x : Bool) (c c' : ℕ) → c' ≡ c + (if x then 1 else 0) → x ≡ false → c ≤ n → c' ≤ n
  stays true c c' e f h = cc
  stays false c c' e f h = omega arith

  inserted :
      (now : ℕ) (p : ℕ → Pipeline) (s : Db)
      → open_count (p s.next_pipeline).brand s < n
      → Under s (insert_pipeline now p s).1
  inserted now p s h k = elim (Bool-cases (str_eq (p s.next_pipeline).brand b)) [
    | inl t ↦
        fits _ (open_count b s) (open_count b (insert_pipeline now p s).1) (counted now p s)
          (subst (λ z. open_count z s < n) ((eq_iff (p s.next_pipeline).brand b).0 t) h)
    | inr f ↦
        stays _ (open_count b s) (open_count b (insert_pipeline now p s).1) (counted now p s)
          (rw f refl) k
  ]

  create-Under :
      (now : ℕ) (trend_id : Option ℕ) (brand : String) (asked : List String) (by : String)
      (instructions : Option Text) (s : Db)
      → open_count brand s < n
      → Under s (create now trend_id brand asked by instructions s).1
  unfolding create
  create-Under now trend_id brand asked by instructions s h =
      elim (Option-cases (open_for_trend trend_id s.pipelines)) [
        | inl e ↦ rw e (made (validate_content_types asked))
        | inr (k, e) ↦ rw e (λ x. x)
      ]
    where
      made :
          (r : Result LifecycleError (List ContentType))
          → Under s
              ((lift r >>= λ cts.
                  insert_pipeline now
                    (λ id. new_pipeline now id trend_id brand asked by instructions cts))
                s).1
      made (ok cts) =
          inserted now (λ id. new_pipeline now id trend_id brand asked by instructions cts) s h
      made (err x) = λ k. k

  to-Under : {A : Type 0} (m : Act A) → Keeps (Within SamePipelines) m → Keeps (Within Under) m
  to-Under m h = record { along = λ s. same-Under s.db (m s).1.db (h.along s) }

  module _ (w : Surroundings) (cap_le : w.cfg.max_open_pipelines ≤ n) where
    create_for-Under :
        (t : Trend) (cts : List ContentType) (s : Session)
        → open_count t.brand s.db < n
        → Under s.db (create_for w t cts s).1.db
    create_for-Under t cts s h =
        let c = create w.now (some t.id) t.brand (type_names cts) "trend_scout" none s.db in
        Under-Preorder.then s.db c.1 (create_for w t cts s).1.db
          (create-Under w.now (some t.id) t.brand (type_names cts) "trend_scout" none s.db h)
          ((to-Under (proposed_with w t c.0) (proposed_with-Same w t c.0)).along
            (record s { db = c.1 }))

    same_count :
        (c : String) (s s' : Db) → s'.pipelines ≡ s.pipelines → open_count c s' ≡ open_count c s
    unfolding open_count
    same_count c s s' e =
        ap (λ ps. count_if (λ q. str_eq q.brand c && is_open_pipeline q.status) ps) e

    under_cap : (k m : ℕ) → leb m k ≡ false → m ≤ n → k < n
    under_cap k m b h = ground arith

    propose_under-Under :
        (t : Trend) (cts : List ContentType) (s : Session)
        → Under s.db (propose_under w t cts (open_count t.brand s.db) s).1.db
    propose_under-Under t cts s =
        elim (Bool-cases (leb w.cfg.max_open_pipelines (open_count t.brand s.db))) [
          | inl b ↦ simp b (
              (Keeps-bind U
                  (to-Under (write_flag w t (some "proposal cap reached"))
                    (write_flag-Same w t (some "proposal cap reached")))
                  λ _. Keeps-pure U false).along
                s)
          | inr b ↦ simp b (
              Along-bind_at U (dossier_first w t) (λ _. create_for w t cts) s
                ((to-Under (dossier_first w t) (dossier_first-Same w t)).along s)
                (λ _ _. create_for-Under t cts (dossier_first w t s).1 (
                  subst (λ k. k < n)
                    (sym (
                      same_count t.brand s.db (dossier_first w t s).1.db
                        ((dossier_first-Same w t).along s)))
                    (under_cap (open_count t.brand s.db) w.cfg.max_open_pipelines b cap_le))))
        ]

    propose_valid-Under :
        (t : Trend) (r : Result LifecycleError (List ContentType))
        → Keeps (Within Under) (propose_valid w t r)
    propose_valid-Under t (err e) = Keeps-pure U false
    propose_valid-Under t (ok cts) = record { along = propose_under-Under t cts }

    propose-Under : (t : Trend) → Keeps (Within Under) (propose w t)
    unfolding propose
    propose-Under t = propose_valid-Under t (validate_content_types w.cfg.default_content_types)

    propose_if-Under :
        (b : Bool) (t : Trend) (k : ScanSummary) → Keeps (Within Under) (propose_if w b t k)
    propose_if-Under true t k =
        Keeps-bind U (propose-Under t) λ (made : Bool). Keeps-pure U (count_proposed made k)
    propose_if-Under false t k = Keeps-pure U k

    weigh-Under :
        (g : Sighting) (seen : Option Trend × Bool) (k : ScanSummary)
        → Keeps (Within Under) (weigh w g seen k)
    weigh-Under g (none, created) k = Keeps-pure U (record k { suppressed = k.suppressed + 1 })
    weigh-Under g (some t, created) k =
        propose_if-Under (is_worth w t g.score k) t (count_seen created k)

    pub scan_sightings-Under :
        (gs : List Sighting) (k : ScanSummary) → Keeps (Within Under) (scan_sightings w gs k)
    unfolding scan_sightings
    scan_sightings-Under [] k = Keeps-pure U k
    scan_sightings-Under (g ∷ gs) k =
        Keeps-bind U
          (to-Under (on_db (upsert w.now g))
            (Keeps-on_db SamePipelines (upsert w.now g) (upsert-SamePipelines w.now g)))
          λ (seen : Option Trend × Bool).
            Keeps-bind U (weigh-Under g seen k) λ (k' : ScanSummary). scan_sightings-Under gs k'
