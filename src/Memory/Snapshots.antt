-- ===== src/Memory/Snapshots.antt =====
-- `MemoryStore.supersede_duplicates` of memory/store.py. `kind_of` is Postgres' text of a payload's
-- `kind` (`payload->>'kind'`); among rows of one age the earlier one counts as the newest.
use adam_abundance.Base.{
  ℕ, ◌+◌, arith, ◌≡◌, refl, ap, String, Bool, true, false, not, ◌&&◌, Option, none, some, List, [],
  ◌∷◌, map, any, keep, count_if, ltb, ◌==◌, if◌then◌else◌, str_eq, inl, inr, Bool-cases,
}
use adam_abundance.Memory.Types.{EntryType, EntryStatus, Payload, MemoryEntry, Memory}
use adam_abundance.Memory.Store.{is_active, same_type, set_status_if}

abbrev pub is_snapshot : EntryType → Bool
is_snapshot EntryType.metric = true
is_snapshot EntryType.context = true
is_snapshot EntryType.report = true
is_snapshot EntryType.distribution_draft = true
is_snapshot _ = false

abbrev pub is_candidate : MemoryEntry → Bool
is_candidate e = is_active e.status && is_snapshot e.type

-- DISTINCT ON takes two missing values as the same.
abbrev pub same_text : Option String → Option String → Bool
same_text none none = true
same_text (some a) (some b) = str_eq a b
same_text _ _ = false

abbrev pub newer_of : MemoryEntry → Option MemoryEntry → MemoryEntry
newer_of e none = e
newer_of e (some f) = if ltb e.created_at f.created_at then f else e

abbrev pub newest_of : (MemoryEntry → Bool) → List MemoryEntry → Option MemoryEntry
newest_of p [] = none
newest_of p (e ∷ es) = let rest = newest_of p es in if p e then some (newer_of e rest) else rest

abbrev pub is_id_of : ℕ → Option MemoryEntry → Bool
is_id_of i none = false
is_id_of i (some e) = e.id == i

abbrev pub is_superseded : EntryStatus → Bool
is_superseded EntryStatus.superseded = true
is_superseded _ = false

abbrev pub superseded_rows : List MemoryEntry → ℕ
superseded_rows = count_if (λ e. is_superseded e.status)

module _ (kind_of : Payload → Option String) where
  abbrev pub same_series : MemoryEntry → MemoryEntry → Bool
  same_series e f =
      str_eq e.brand f.brand
      && same_type e.type f.type
      && same_text e.source_system f.source_system
      && same_text (kind_of e.payload) (kind_of f.payload)

  -- The row with this id is the newest of its series.
  abbrev pub is_kept : List MemoryEntry → ℕ → Bool
  is_kept es i =
      any (λ e. is_id_of i (newest_of (λ f. is_candidate f && same_series e f) es))
        (keep is_candidate es)

  abbrev pub is_duplicate : List MemoryEntry → MemoryEntry → Bool
  is_duplicate es e = is_candidate e && not (is_kept es e.id)

  unfoldable pub supersede_duplicates : Memory → ℕ × Memory
  supersede_duplicates m = (
    count_if (is_duplicate m.entries) m.entries,
    record m {
      entries = map (set_status_if (is_duplicate m.entries) EntryStatus.superseded) m.entries;
    },
  )

  snapshot_of_duplicate : (a b c : Bool) → ((a && b) && c) ≡ true → b ≡ true
  snapshot_of_duplicate true true c h = refl
  snapshot_of_duplicate true false c h = cc
  snapshot_of_duplicate false b c h = cc

  lasting : List MemoryEntry → List MemoryEntry
  lasting = keep (λ e. not (is_snapshot e.type))

  swept : List MemoryEntry → List MemoryEntry → List MemoryEntry
  swept every = map (set_status_if (is_duplicate every) EntryStatus.superseded)

  lasting-swept : (every es : List MemoryEntry) → lasting (swept every es) ≡ lasting es
  unfolding lasting swept
  lasting-swept every [] = refl
  lasting-swept every (e ∷ es) = elim (Bool-cases (is_duplicate every e)) [
    | inl b ↦
        rw (b, snapshot_of_duplicate (is_active e.status) (is_snapshot e.type) _ b)
          (lasting-swept every es)
    | inr b ↦ elim (Bool-cases (is_snapshot e.type)) [
      | inl t ↦ rw (b, t) (lasting-swept every es)
      | inr t ↦ rw (b, t) (ap (λ r. e ∷ r) (lasting-swept every es))
    ]
  ]

  superseded-swept :
      (every es : List MemoryEntry)
      → superseded_rows (swept every es) ≡ superseded_rows es + count_if (is_duplicate every) es
  unfolding swept
  superseded-swept every [] = refl
  superseded-swept every (e ∷ es) = elim (Bool-cases (is_duplicate every e)) [
    | inl b ↦
        rw (b, unsuperseded e.status (is_snapshot e.type) _ b)
          (omega (arith, superseded-swept every es))
    | inr b ↦ rw b (omega (arith, superseded-swept every es))
  ]
    where
      unsuperseded :
          (st : EntryStatus) (b c : Bool)
          → ((is_active st && b) && c) ≡ true
          → is_superseded st ≡ false
      unsuperseded EntryStatus.active b c h = refl
      unsuperseded EntryStatus.expired b c h = refl
      unsuperseded EntryStatus.superseded b c h = cc

  -- The sweep leaves alone, in their order, all rows that are no snapshots (flags, facts, claims,
  -- decisions and plan items), and as many rows more are superseded as it returned.
  pub supersede_duplicates_counts :
      (m : Memory)
      → let (n, m') = supersede_duplicates m in
        (keep (λ e. not (is_snapshot e.type)) m'.entries
          ≡ keep (λ e. not (is_snapshot e.type)) m.entries)
        × (superseded_rows m'.entries ≡ superseded_rows m.entries + n)
  unfolding supersede_duplicates lasting swept
  supersede_duplicates_counts m =
      (lasting-swept m.entries m.entries, superseded-swept m.entries m.entries)
