-- ===== src/Memory/Provenance.antt =====
-- The provenance rule of `MemoryStore.write` and `write_many`.
use adam_abundance.Base.{
  ℕ, ◌+◌, ◌≡◌, refl, Bool, true, false, not, ◌&&◌, ◌||◌, Option, List, [], ◌∷◌, ◌++◌, arith, All,
  All-append, Result, sym, Bool-cases, inl, inr,
}
use mathlib.Core.List.{append-nil, append_assoc}
use adam_abundance.Base.Along.{Preorder, Along, Along-bind}
use adam_abundance.Memory.Types.{EntryType, EntryDraft, MemoryEntry, Memory}
use adam_abundance.Memory.Store.{
  is_valid_scope, is_fact, new_entry, write, write_many, invalid_scope,
}

-- What a call that began at `m` has added: unverified rows, behind the old ones.
abbrev pub AddsUnverified : Memory → Memory → Type 0
AddsUnverified m m' =
    (es : List MemoryEntry) × (m'.entries ≡ m.entries ++ es) × All (λ e. e.verified ≡ false) es

AddsUnverified-refl : (m : Memory) → AddsUnverified m m
AddsUnverified-refl m = ([], sym (append-nil m.entries), tt)

AddsUnverified-preorder : Preorder AddsUnverified
AddsUnverified-preorder = record {
  same = AddsUnverified-refl;
  then = λ a b c (es, p, hp) (fs, q, hq).
      (es ++ fs, rw (q, p) (append_assoc a.entries es fs), All-append _ es fs hp hq);
}

module _ (ttls : EntryType → Option ℕ) (now : ℕ) where
  -- A write into a known scope appends one row: it is verified exactly when the caller asked for it and
  -- the fact gate was cleared, and it is a fact exactly when the draft is one and does not ask in
  -- vain to be verified (so a fact that never asked stays a fact).
  pub write-provenance :
      (gate : Bool) (d : EntryDraft) (m : Memory)
      → is_valid_scope d.brand ≡ true
      → (e : MemoryEntry) × (write ttls now gate d m
          ≡ (Result.ok e, record m { entries = m.entries ++ e ∷ []; next_id = m.next_id + 1 }))
        × (e.verified ≡ (d.verified && gate))
        × (is_fact e.type ≡ (is_fact d.type && (gate || not d.verified)))
        × (e.payload ≡ d.payload)
        × (e.brand ≡ d.brand)
  unfolding write
  write-provenance gate d m h = elim (Bool-cases gate) [
    | inl g ↦
        (new_entry ttls now gate d m.next_id, rw h refl, ground arith, ground arith, refl, refl)
    | inr g ↦
        (new_entry ttls now gate d m.next_id, rw h refl, ground arith, ground arith, refl, refl)
  ]

  -- A write outside the known scopes raises and leaves the memory alone.
  pub write-invalid :
      (gate : Bool) (d : EntryDraft) (m : Memory)
      → is_valid_scope d.brand ≡ false
      → write ttls now gate d m ≡ (Result.err (invalid_scope d.brand), m)
  unfolding write
  write-invalid gate d m h = rw h refl

  write_one-unverified :
      (d : EntryDraft) (m : Memory) → AddsUnverified m (write ttls now false d m).1
  unfolding write
  write_one-unverified d m = elim (Bool-cases (is_valid_scope d.brand)) [
    | inl h ↦ rw h (new_entry ttls now false d m.next_id ∷ [], refl, ground arith)
    | inr h ↦ rw h (AddsUnverified-refl m)
  ]

  -- Without the fact gate no batch of drafts, whatever they ask for, adds a verified row, also
  -- when it raises half-way; the rows that were there stay as they were.
  pub write_many-unverified :
      (ds : List EntryDraft) → Along AddsUnverified (write_many ttls now false ds)
  unfolding write_many
  write_many-unverified [] = AddsUnverified-refl
  write_many-unverified (d ∷ ds) =
      Along-bind AddsUnverified-preorder (write ttls now false d) _ (write_one-unverified d) λ e.
        Along-bind AddsUnverified-preorder (write_many ttls now false ds) _
          (write_many-unverified ds) λ es m. AddsUnverified-refl m
