-- ===== src/Memory/Tests.antt =====
-- Concrete memories: what the store does with them, and the theorems at them.
use adam_abundance.Base.{
  ℕ, sym, ap, ◌∙◌, inl, inr, arith, Option, List, ◌↔◌, ◌≤◌, ◌<◌, String, ◌+◌, count_if, ◌≡◌, refl,
  Bool, true, false, not, ◌&&◌, ◌||◌, none, some, [], ◌∷◌, ◌++◌, length, All, Result,
}
use adam_abundance.Memory.Types.{
  EntryType, EntryStatus, Payload, EntryDraft, MemoryEntry, Memory, default_ttl,
}
use adam_abundance.Memory.Store.{
  write, write_many, is_valid_scope, is_fact, expire_stale, Query, query, matches,
}
use adam_abundance.Memory.Snapshots.{
  is_candidate, same_series, superseded_rows, supersede_duplicates,
}
use adam_abundance.Memory.Newest.{In}
use adam_abundance.Memory.Duplicates.{UniqueIds, supersede_duplicates_lem}
use adam_abundance.Memory.Provenance.{AddsUnverified, write-provenance, write_many-unverified}
use adam_abundance.Memory.Sweep.{IsNewestFirst}
use adam_abundance.Memory.Answer.{Meets, query_sound}

abbrev claimed_fact : EntryDraft
claimed_fact = record {
  type = EntryType.fact;
  brand = "hotcars";
  source_agent = "research";
  source_system = none;
  payload = [];
  verified = true;
  confidence = none;
  source_urls = none;
  expires_at = none;
  ttl_seconds = none;
  status = none;
}

abbrev old_entry : MemoryEntry
old_entry = record {
  id = 1;
  type = EntryType.metric;
  brand = "hotcars";
  source_agent = "analytics";
  source_system = none;
  payload = [];
  verified = false;
  confidence = none;
  source_urls = none;
  created_at = 10;
  expires_at = some 20;
  status = EntryStatus.active;
}

abbrev small : Memory
small = record { entries = old_entry ∷ []; next_id = 2 }

abbrev everything : Query
everything = record {
  brand = none;
  include_portfolio = true;
  types = [];
  source_agent = none;
  source_system = none;
  verified = none;
  since = none;
  fresh_within_seconds = none;
  payload_contains = none;
  status = none;
  limit = 5;
}

abbrev no_contains : Payload → Payload → Bool
no_contains a b = false

-- An ungated fact that asks to be verified is kept as a claim.
downgraded : (write default_ttl 100 false claimed_fact small).1.next_id ≡ 3
unfolding write is_valid_scope
downgraded = refl

swept : (expire_stale 30 small).0 ≡ 1
unfolding expire_stale
swept = refl

write-provenance_example :
    (e : MemoryEntry) × (write default_ttl 100 false claimed_fact small ≡ (
      Result.ok e,
      record small { entries = small.entries ++ e ∷ []; next_id = small.next_id + 1 },
    ))
    × (e.verified ≡ (claimed_fact.verified && false))
    × (is_fact e.type ≡ (is_fact claimed_fact.type && (false || not claimed_fact.verified)))
    × (e.payload ≡ claimed_fact.payload)
    × (e.brand ≡ claimed_fact.brand)
unfolding is_valid_scope
write-provenance_example = write-provenance default_ttl 100 false claimed_fact small refl

write_many-unverified_example :
    AddsUnverified small
      (write_many default_ttl 100 false (claimed_fact ∷ claimed_fact ∷ []) small).1
write_many-unverified_example =
    write_many-unverified default_ttl 100 (claimed_fact ∷ claimed_fact ∷ []) small

query_sound_example :
    ((e : MemoryEntry)
      → (matches no_contains 30 everything e ≡ true) ↔ Meets no_contains 30 everything e)
    × All (Meets no_contains 30 everything) (query no_contains 30 everything small)
    × IsNewestFirst (query no_contains 30 everything small)
    × (length (query no_contains 30 everything small) ≤ everything.limit)
    × ((left : List MemoryEntry) × All
          (λ k. All (λ d. d.created_at ≤ k.created_at) left)
          (query no_contains 30 everything small)
        × (length (query no_contains 30 everything small) < everything.limit → left ≡ [])
        × ((p : MemoryEntry → Bool)
            → count_if p (query no_contains 30 everything small) + count_if p left
              ≡ count_if (λ e. matches no_contains 30 everything e && p e) small.entries))
query_sound_example = query_sound no_contains 30 everything small

abbrev no_kind : Payload → Option String
no_kind p = none

abbrev doubled : Memory
doubled = record {
  entries = old_entry ∷ record old_entry { id = 2; created_at = 15 } ∷ [];
  next_id = 3;
}

-- Of two snapshots of one series the older one goes.
one_superseded : (supersede_duplicates no_kind doubled).0 ≡ 1
unfolding supersede_duplicates
one_superseded = refl

doubled-UniqueIds : UniqueIds doubled.entries
doubled-UniqueIds e f (inl i) (inl j) h = sym i ∙ j
doubled-UniqueIds e f (inr (inl i)) (inr (inl j)) h = sym i ∙ j
doubled-UniqueIds e f (inl i) (inr (inl j)) h =
    absurd (differ (ap (λ (x : MemoryEntry). x.id) i ∙ h ∙ sym (ap (λ (x : MemoryEntry). x.id) j)))
  where
    differ : ◌≡◌ {A = ℕ} 1 2 → ⊥
    differ k = omega arith
doubled-UniqueIds e f (inr (inl i)) (inl j) h =
    absurd (differ (ap (λ (x : MemoryEntry). x.id) i ∙ h ∙ sym (ap (λ (x : MemoryEntry). x.id) j)))
  where
    differ : ◌≡◌ {A = ℕ} 2 1 → ⊥
    differ k = omega arith
doubled-UniqueIds e f (inr (inr i)) j h = elim i [ ]
doubled-UniqueIds e f i (inr (inr j)) h = elim j [ ]

supersede_duplicates_lem_example :
    let (n, m') = supersede_duplicates no_kind doubled in
    ((e f : MemoryEntry)
      → In e m'.entries
      → In f m'.entries
      → is_candidate e ≡ true
      → is_candidate f ≡ true
      → same_series no_kind e f ≡ true
      → e ≡ f)
    × ((e : MemoryEntry)
        → In e doubled.entries
        → is_candidate e ≡ true
        → (f : MemoryEntry) × In f doubled.entries
          × In f m'.entries
          × (is_candidate f ≡ true)
          × (same_series no_kind e f ≡ true)
          × (e.created_at ≤ f.created_at))
    × ((e : MemoryEntry) → In e doubled.entries → is_candidate e ≡ false → In e m'.entries)
    × (superseded_rows m'.entries ≡ superseded_rows doubled.entries + n)
supersede_duplicates_lem_example = supersede_duplicates_lem no_kind doubled doubled-UniqueIds
