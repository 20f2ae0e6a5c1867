-- ===== src/Planner/Candidates.antt =====
-- The candidates of orchestrator/planner.py: what the planner makes of flags, topics and drafts in
-- the memory. Where Python raises a TypeError, for a list or an object that is hashed, the answer is
-- none.
use adam_abundance.Base.{
  ℕ, ◌+◌, ◌*◌, String, Bool, true, false, not, ◌&&◌, ◌||◌, Option, none, some, List, [], ◌∷◌, ◌++◌,
  any, take, ◌==◌, str_eq, if◌then◌else◌, ℤ,
}
use adam_abundance.Base.Text.{codes, same_codes}
use adam_abundance.Memory.Types.{
  Value, null, text, spelled, num, bool, list, object, no_elements, element, Payload, MemoryEntry,
}
use adam_abundance.Governor.Caps.{SpendMetric}
use adam_abundance.Governor.Policy.{CostEstimate}
use adam_abundance.Planner.Wording.{
  join, is_truthy, get, get_or, is_text, truthy_or, as_fields, shown, describe_flag,
}

pub record Candidate : Type 0 where
  pub score : ℕ
  pub action_type : String
  pub params : Payload
  pub rationale : String

abbrev pub cost : ℕ → ℕ → ℕ → CostEstimate
cost llm bq ahrefs SpendMetric.llm_micros = ℤ.pos llm
cost llm bq ahrefs SpendMetric.bq_bytes = ℤ.pos bq
cost llm bq ahrefs SpendMetric.ahrefs_units = ℤ.pos ahrefs

abbrev gib : ℕ
gib = 1024 * 1024 * 1024

abbrev pub action_specs : List (String × String × CostEstimate)
action_specs =
    ("notify", "orchestrator", cost 0 0 0)
    ∷ ("trigger_ideation", "opportunity", cost 500000 0 0)
    ∷ ("route_to_writer", "production", cost 800000 0 0)
    ∷ ("create_asana_task", "production", cost 0 0 0)
    ∷ ("queue_decay_refresh", "production", cost 0 0 100)
    ∷ ("emaki_publish_draft", "production", cost 0 0 0)
    ∷ ("assemble_digest", "reporting", cost 0 (2 * gib) 0)
    ∷ ("send_digest_email", "reporting", cost 0 0 0)
    ∷ ("assemble_newsletter", "reporting", cost 1500000 gib 0)
    ∷ ("assemble_social_post", "reporting", cost 800000 0 0)
    ∷ []

-- `ACTION_SPECS.get(action_type, ("orchestrator", {}))`
abbrev pub spec_in : List (String × String × CostEstimate) → String → String × CostEstimate
spec_in [] a = ("orchestrator", cost 0 0 0)
spec_in ((b, agent, c) ∷ specs) a =
    let rest = spec_in specs a in if str_eq b a then (agent, c) else rest

unfoldable pub agent_of : Candidate → String
agent_of c = (spec_in action_specs c.action_type).0

unfoldable pub cost_of : Candidate → CostEstimate
cost_of c = (spec_in action_specs c.action_type).1

abbrev pub is_hashable : Value → Bool
is_hashable (list vs) = false
is_hashable (object f) = false
is_hashable _ = true

-- `_SEVERITY_SCORE.get(p.get("severity", "medium"), 60)`
abbrev pub severity_score : Payload → Option ℕ
severity_score p =
    let sev = get_or "severity" (text "medium") p in
    if not (is_hashable sev)
    then none
    else some (if is_text "high" sev then 100 else if is_text "low" sev then 30 else 60)

abbrev pub candidate : ℕ → String → Payload → String → Candidate
candidate score action_type params rationale = record {
  score = score;
  action_type = action_type;
  params = params;
  rationale = rationale;
}

abbrev pub with_first : Candidate → Option (List Candidate) → Option (List Candidate)
with_first c none = none
with_first c (some cs) = some (c ∷ cs)

-- `ready_ids[0]`
abbrev pub first_element : Value → Option Value
first_element (list (element v vs)) = some v
first_element (text (String.◌∷◌ c s)) = some (text (String.◌∷◌ c String.[]))
first_element (spelled (c ∷ cs)) = some (spelled (c ∷ []))
first_element _ = none

-- The last of the metrics of the queue counts.
abbrev pub ready_ids : Value → List MemoryEntry → Value
ready_ids ids [] = ids
ready_ids ids (m ∷ ms) =
    ready_ids
      (if is_text "hc_viral_queue" (get "kind" m.payload)
        then get_or "ready_topic_ids" (list no_elements) m.payload
        else ids)
      ms

module _ (repr : Value → String) where
  abbrev says : String → Payload → String
  says k p = shown repr (get k p)

  abbrev pub publish_draft : ℕ → Payload → Option Value → Option Candidate
  publish_draft sev p none = none
  publish_draft sev p (some id) = some (
      candidate (sev + 20) "emaki_publish_draft"
        (("topic_id", id) ∷ ("source", text "hc_viral_hits") ∷ [])
        (join (
          "HC-Viral has "
          ∷ says "ready_count" p
          ∷ " drafts ready; push the top one to Emaki (unpublished)."
          ∷ [])))

  abbrev outlines : ℕ → Value → Payload → Candidate
  outlines sev kind p =
      candidate sev "notify"
        ((
          "message",
          text (
              join (
                shown repr kind
                ∷ ": "
                ∷ shown repr (get_or "count" (get "pending" p) p)
                ∷ " item(s) need attention."
                ∷ [])),
        )
          ∷ [])
        (join ("Production flag '" ∷ shown repr kind ∷ "' — surface to the editor." ∷ []))

  abbrev writer_failures : ℕ → Payload → Candidate
  writer_failures sev p =
      candidate sev "notify"
        (("message", text (join ("AI-writer failures: " ∷ says "count" p ∷ []))) ∷ [])
        "Albert writer reported failed drafts."

  abbrev spend_cap_exceeded : Payload → Candidate
  spend_cap_exceeded p =
      candidate 100 "notify"
        ((
          "message",
          text (join ("Spend cap hit: " ∷ says "metric" p ∷ " (" ∷ says "scope" p ∷ ")" ∷ [])),
        )
          ∷ [])
        "Governor refused an action on a spend cap — review caps/plan."

  abbrev decay_candidate : ℕ → Payload → Candidate
  decay_candidate sev p =
      candidate (sev + 5) "queue_decay_refresh"
        (("url", get "url" p) ∷ ("pos_delta", get "pos_delta" p) ∷ [])
        (join (
          "Ranking decay on "
          ∷ says "url" p
          ∷ " (Δpos "
          ∷ says "pos_delta" p
          ∷ ") — queue an update refresh."
          ∷ []))

  abbrev content_audit_finding : ℕ → Payload → Candidate
  content_audit_finding sev p =
      candidate sev "create_asana_task"
        (("name", text (join ("Content depth: refresh " ∷ says "url" p ∷ [])))
          ∷ (
            "notes",
            text (
                join (
                  "Auditor flagged low depth ("
                  ∷ says "depth_pct" p
                  ∷ "%) / AVD ("
                  ∷ says "avd_seconds" p
                  ∷ "s)."
                  ∷ [])),
          )
          ∷ [])
        (join ("Content-depth finding on " ∷ says "url" p ∷ " — create a refresh task." ∷ []))

  abbrev other_flag : ℕ → Payload → Candidate
  other_flag sev p =
      let (title, rationale) = describe_flag repr p in
      candidate sev "notify" (("message", text title) ∷ ("flag", object (as_fields p)) ∷ [])
        rationale

  -- The chain of `kind == …` in the body of the loop over the flags.
  unfoldable pub of_flag : Value → Payload → ℕ → Option Candidate
  unfolding describe_flag
  of_flag ids p sev =
      let kind = get_or "kind" (text "flag") p in
      if is_text "emaki_backlog" kind && is_truthy ids
      then publish_draft sev p (first_element ids)
      else some (
          if is_text "overdue_outlines" kind || is_text "stuck_outlines" kind
          then outlines sev kind p
          else if is_text "writer_failures" kind
          then writer_failures sev p
          else if is_text "spend_cap_exceeded" kind
          then spend_cap_exceeded p
          else if is_text "decay_candidate" kind
          then decay_candidate sev p
          else if is_text "content_audit_finding" kind
          then content_audit_finding sev p
          else other_flag sev p)

  abbrev pub and_rest : Option Candidate → Option (List Candidate) → Option (List Candidate)
  and_rest none rest = none
  and_rest (some c) rest = with_first c rest

  abbrev pub flag_at : Value → Payload → Option ℕ → Option Candidate
  flag_at ids p none = none
  flag_at ids p (some sev) = of_flag ids p sev

  abbrev pub flags_on : Value → List MemoryEntry → Option (List Candidate)
  flags_on ids [] = some []
  flags_on ids (f ∷ fs) =
      and_rest (flag_at ids f.payload (severity_score f.payload)) (flags_on ids fs)

  unfoldable pub from_flags : List MemoryEntry → List MemoryEntry → Option (List Candidate)
  unfolding of_flag
  from_flags flags queue_metrics = flags_on (ready_ids (list no_elements) queue_metrics) flags

  abbrev system_value : Option String → Value
  system_value none = null
  system_value (some s) = text s

  abbrev pub topic : ℕ → MemoryEntry → Candidate
  topic score c =
      let title = truthy_or (get "title" c.payload) (text "(untitled)") in
      candidate score "route_to_writer"
        (("topic_id", get "topic_id" c.payload)
          ∷ ("title", title)
          ∷ ("source", get_or "source" (system_value c.source_system) c.payload)
          ∷ [])
        (join (
          "Topic candidate from "
          ∷ shown repr (system_value c.source_system)
          ∷ ": “"
          ∷ shown repr title
          ∷ "” — route to a writer."
          ∷ []))

  abbrev pub topics : List MemoryEntry → List Candidate
  topics [] = []
  topics (c ∷ cs) =
      let rest = topics cs in
      if is_text "viral_topic_candidate" (get "kind" c.payload)
      then topic 55 c ∷ rest
      else if is_text "topic_candidate" (get "kind" c.payload)
      then topic 50 c ∷ rest
      else rest

-- `==` of two hashable values: a Boolean is the number 0 or 1.
abbrev pub text_codes : Value → Option (List ℕ)
text_codes (text s) = some (codes s)
text_codes (spelled cs) = some cs
text_codes _ = none

abbrev pub number_of : Value → Option ℕ
number_of (num n) = some n
number_of (bool true) = some 1
number_of (bool false) = some 0
number_of _ = none

abbrev same_some : Option (List ℕ) → Option (List ℕ) → Bool
same_some (some a) (some b) = same_codes a b
same_some _ _ = false

abbrev same_number : Option ℕ → Option ℕ → Bool
same_number (some a) (some b) = a == b
same_number _ _ = false

abbrev pub is_null : Value → Bool
is_null null = true
is_null _ = false

abbrev pub same_value : Value → Value → Bool
same_value v w =
    (is_null v && is_null w)
    || same_some (text_codes v) (text_codes w)
    || same_number (number_of v) (number_of w)

-- `cand.params.get("topic_id") or cand.params.get("title")`
abbrev pub topic_key : Candidate → Value
topic_key c = truthy_or (get "topic_id" c.params) (get "title" c.params)

unfoldable pub dedupe : List Candidate → List Value → Option (List Candidate)
dedupe [] seen = some []
dedupe (c ∷ cs) seen =
    let again = dedupe cs seen in
    let first = with_first c (dedupe cs (topic_key c ∷ seen)) in
    if not (is_hashable (topic_key c))
    then none
    else if any (same_value (topic_key c)) seen
    then again
    else first

abbrev pub at_most_five : Option (List Candidate) → Option (List Candidate)
at_most_five none = none
at_most_five (some cs) = some (take 5 cs)

module _ (repr : Value → String) where
  unfoldable pub from_candidates : List MemoryEntry → Option (List Candidate)
  unfolding dedupe
  from_candidates ctx_entries = at_most_five (dedupe (topics repr ctx_entries) [])

abbrev digests : List MemoryEntry → List Candidate
digests [] = []
digests (r ∷ rs) =
    let rest = digests rs in
    if is_text "daily_digest_inputs" (get "kind" r.payload) && is_truthy (get "ready" r.payload)
    then candidate 55 "assemble_digest" (("report_entry_id", num r.id) ∷ [])
        "Daily digest inputs are ready — assemble the per-brand digest for review."
      ∷ rest
    else rest

abbrev drafts_of : List MemoryEntry → List Candidate
drafts_of [] = []
drafts_of (d ∷ ds) =
    let rest = drafts_of ds in
    if is_text "newsletter_draft" (get "kind" d.payload)
    then candidate 45 "assemble_newsletter" (("draft_entry_id", num d.id) ∷ [])
        "CarBuzz newsletter inputs ready — assemble draft (HTML) for human review."
      ∷ rest
    else if is_text "social_draft" (get "kind" d.payload)
    then candidate 40 "assemble_social_post" (("draft_entry_id", num d.id) ∷ [])
        "Social post inputs ready — assemble images+captions for human review."
      ∷ rest
    else rest

unfoldable pub from_distribution : List MemoryEntry → List MemoryEntry → List Candidate
from_distribution reports drafts = digests reports ++ drafts_of drafts
