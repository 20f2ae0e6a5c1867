-- ===== src/Engine/Personas.antt =====
-- trends/personas.py: the voices of the AI writer, their rotation and their edits. Rows stand in
-- the order of their ids; what a text looks like is only looked at by `strip`.
use adam_abundance.Base.{
  ℕ, zero, suc, ◌+◌, ◌%◌, String, Bool, true, not, ◌&&◌, Option, none, some, List, [], ◌∷◌, ◌++◌,
  keep, length, if◌then◌else◌, str_eq, is_none, take,
}
use adam_abundance.Base.Table.{Keyed, find, put}
use adam_abundance.Base.Text.{strip}
use adam_abundance.Trends.Lifecycle.{is_blank}
use adam_abundance.Trends.Rows.{Text, Job}
use adam_abundance.Trends.JobRepo.{distinct_ids}

pub data PersonaKind : Type 0 where
  writer house : PersonaKind

pub record WriterPersona : Type 0 where
  pub id : ℕ
  pub brand : String
  pub kind : PersonaKind
  pub name : Text
  pub author : Option String
  pub features : Option String
  pub style_brief : Option Text
  pub exemplar_refs : Option String
  pub enabled : Bool
  pub created_by : Option String
  pub updated_at : Option ℕ

instance abbrev pub persona_keyed : Keyed WriterPersona
persona_keyed = record { key = λ p. p.id }

-- The table and the next value of its id sequence.
pub record Personas : Type 0 where
  pub rows : List WriterPersona
  pub next_id : ℕ

abbrev pub is_in_pool : String → WriterPersona → Bool
is_in_pool brand p = str_eq p.brand brand && p.enabled

unfoldable pub enabled_personas : String → Personas → List WriterPersona
enabled_personas brand t = keep (is_in_pool brand) t.rows

unfoldable pub get_persona : ℕ → Personas → Option WriterPersona
get_persona i t = find i t.rows

abbrev pub of_brand : String → Option WriterPersona → Option WriterPersona
of_brand brand none = none
of_brand brand (some p) = if str_eq p.brand brand then some p else none

-- The join of a job with the personas of the brand.
abbrev pub carries : String → Personas → Job → Bool
carries brand t j = elim j.persona_id [
  | none ↦ Bool.false
  | some i ↦ not (is_none (of_brand brand (find i t.rows)))
]

abbrev pub pipelines_carrying : String → Personas → List Job → List (Option ℕ)
pipelines_carrying brand t [] = []
pipelines_carrying brand t (j ∷ js) =
    let rest = pipelines_carrying brand t js in
    if carries brand t j then j.pipeline_id ∷ rest else rest

-- `count(distinct(pipeline_id))`
unfoldable pub used_count : String → Personas → List Job → ℕ
used_count brand t js = length (distinct_ids (pipelines_carrying brand t js))

abbrev pub get_elem? : List WriterPersona → ℕ → Option WriterPersona
get_elem? [] n = none
get_elem? (p ∷ ps) zero = some p
get_elem? (p ∷ ps) (suc n) = get_elem? ps n

-- `pool[used % len(pool)]`, or None for an empty pool.
unfoldable pub rotate : List WriterPersona → ℕ → Option WriterPersona
rotate [] used = none
rotate (p ∷ ps) used = get_elem? (p ∷ ps) (used % suc (length ps))

unfoldable pub pick_persona : String → Option ℕ → Personas → List Job → Option WriterPersona
unfolding get_persona enabled_personas used_count rotate
pick_persona brand (some i) t js = of_brand brand (get_persona i t)
pick_persona brand none t js = rotate (enabled_personas brand t) (used_count brand t js)

abbrev pub unless_blank : Text → Option Text
unless_blank t = if is_blank (strip t) then none else some (strip t)

abbrev pub house_persona :
    String → Text → Text → Option String → Option String → Option String → ℕ → WriterPersona
house_persona brand name brief features recipe by id = record {
  id = id;
  brand = brand;
  kind = PersonaKind.house;
  name = strip name;
  author = none;
  features = features;
  style_brief = unless_blank brief;
  exemplar_refs = recipe;
  enabled = true;
  created_by = by;
  updated_at = none;
}

unfoldable pub create_house_persona :
    String
    → Text
    → Text
    → Option String
    → Option String
    → Option String
    → Personas
    → WriterPersona × Personas
create_house_persona brand name brief features recipe by t = (
  house_persona brand name brief features recipe by t.next_id,
  record {
    rows = t.rows ++ house_persona brand name brief features recipe by t.next_id ∷ [];
    next_id = t.next_id + 1;
  },
)

abbrev pub switched : ℕ → Bool → WriterPersona → WriterPersona
switched now on p = record p { enabled = on; updated_at = some now }

abbrev pub set_enabled_of :
    ℕ → Bool → Option WriterPersona → Personas → Option WriterPersona × Personas
set_enabled_of now on none t = (none, t)
set_enabled_of now on (some p) t =
    (some (switched now on p), record t { rows = put p.id (switched now on p) t.rows })

unfoldable pub set_enabled : ℕ → ℕ → Bool → Personas → Option WriterPersona × Personas
unfolding get_persona
set_enabled now i on t = set_enabled_of now on (get_persona i t) t

-- An id that is no number is `none`; features that are empty count as none.
abbrev pub blend_of : String → Option WriterPersona → List (Text × String)
blend_of brand none = []
blend_of brand (some p) = elim p.features [
  | none ↦ []
  | some f ↦ if str_eq p.brand brand then (p.name, f) ∷ [] else []
]

abbrev pub blend_each : String → Personas → List (Option ℕ) → List (Text × String)
blend_each brand t [] = []
blend_each brand t (none ∷ is) = blend_each brand t is
blend_each brand t (some i ∷ is) = blend_of brand (find i t.rows) ++ blend_each brand t is

unfoldable pub gather_blend : String → List (Option ℕ) → Personas → List (Text × String)
gather_blend brand ids t = blend_each brand t (take 5 ids)
