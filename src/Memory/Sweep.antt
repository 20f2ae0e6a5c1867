-- ===== src/Memory/Sweep.antt =====
-- The TTL sweep `expire_stale`, and the order of a read (memory/store.py).
use adam_abundance.Base.{
  ℕ, zero, suc, ◌+◌, ◌≤◌, ◌≡◌, refl, Bool, true, false, List, [], ◌∷◌, arith, All, All-take,
  All-drop, drop, ◌<◌, length, take, leb, count_if, map, Bool-cases, inl, inr,
}
use adam_abundance.Memory.Types.{EntryStatus, MemoryEntry, Memory}
use adam_abundance.Memory.Store.{is_stale, set_status_if, expire_stale, insert_newest, newest_first}

abbrev pub is_expired : EntryStatus → Bool
is_expired EntryStatus.expired = true
is_expired _ = false

abbrev pub expired_rows : List MemoryEntry → ℕ
expired_rows = count_if (λ e. is_expired e.status)

module _ (now : ℕ) where
  sweep_counts :
      (es : List MemoryEntry)
      → expired_rows (map (set_status_if (is_stale now) EntryStatus.expired) es)
        ≡ expired_rows es + count_if (is_stale now) es
  sweep_counts [] = refl
  sweep_counts (e ∷ es) = ground (arith, sweep_counts es)

  sweep_clears :
      (es : List MemoryEntry)
      → All
          (λ e. is_stale now e ≡ false)
          (map (set_status_if (is_stale now) EntryStatus.expired) es)
  sweep_clears [] = tt
  sweep_clears (e ∷ es) = (ground arith, sweep_clears es)

  -- After a sweep no active row is past its expiry, and the number returned is the number of rows
  -- that the sweep has newly marked expired.
  pub expire_stale_lem :
      (m : Memory)
      → All (λ e. is_stale now e ≡ false) (expire_stale now m).1.entries
        × (expired_rows (expire_stale now m).1.entries
            ≡ expired_rows m.entries + (expire_stale now m).0)
  unfolding expire_stale
  expire_stale_lem m = (sweep_clears m.entries, sweep_counts m.entries)

-- No row is older than the next.
abbrev pub IsNewestFirst : List MemoryEntry → Type 0
IsNewestFirst [] = Unit
IsNewestFirst (x ∷ xs) = All (λ y. y.created_at ≤ x.created_at) xs × IsNewestFirst xs

module _ (P : MemoryEntry → Type 0) where
  All-insert_newest :
      (e : MemoryEntry) (xs : List MemoryEntry) → P e → All P xs → All P (insert_newest e xs)
  All-insert_newest e [] p h = (p, tt)
  All-insert_newest e (x ∷ xs) p h = elim (Bool-cases (leb x.created_at e.created_at)) [
    | inl b ↦ rw b (p, h)
    | inr b ↦ rw b (h.0, All-insert_newest e xs p h.1)
  ]

  pub All-newest_first : (xs : List MemoryEntry) → All P xs → All P (newest_first xs)
  All-newest_first [] h = tt
  All-newest_first (x ∷ xs) h = All-insert_newest x (newest_first xs) h.0 (All-newest_first xs h.1)

All-older :
    (a b : ℕ) (xs : List MemoryEntry)
    → a ≤ b
    → All (λ y. y.created_at ≤ a) xs
    → All (λ y. y.created_at ≤ b) xs
All-older a b [] h k = tt
All-older a b (x ∷ xs) h k = (omega arith, All-older a b xs h k.1)

insert_newest-IsNewestFirst :
    (e : MemoryEntry) (xs : List MemoryEntry)
    → IsNewestFirst xs
    → IsNewestFirst (insert_newest e xs)
insert_newest-IsNewestFirst e [] h = (tt, tt)
insert_newest-IsNewestFirst e (x ∷ xs) h = elim (Bool-cases (leb x.created_at e.created_at)) [
  | inl b ↦ rw b ((ground arith, All-older x.created_at e.created_at xs (ground arith) h.0), h)
  | inr b ↦ rw b (
    All-insert_newest (λ y. y.created_at ≤ x.created_at) e xs (ground arith) h.0,
    insert_newest-IsNewestFirst e xs h.1,
  )
]

pub newest_first-IsNewestFirst : (xs : List MemoryEntry) → IsNewestFirst (newest_first xs)
newest_first-IsNewestFirst [] = tt
newest_first-IsNewestFirst (x ∷ xs) =
    insert_newest-IsNewestFirst x (newest_first xs) (newest_first-IsNewestFirst xs)

pub take-IsNewestFirst :
    (n : ℕ) (xs : List MemoryEntry) → IsNewestFirst xs → IsNewestFirst (take n xs)
take-IsNewestFirst zero xs h = tt
take-IsNewestFirst (suc n) [] h = tt
take-IsNewestFirst (suc n) (x ∷ xs) h = (All-take _ n xs h.0, take-IsNewestFirst n xs h.1)

-- Every row is as often in the sorted list as before.
module _ (p : MemoryEntry → Bool) where
  count_if-insert_newest :
      (e : MemoryEntry) (xs : List MemoryEntry)
      → count_if p (insert_newest e xs) ≡ count_if p (e ∷ xs)
  count_if-insert_newest e [] = refl
  count_if-insert_newest e (x ∷ xs) = elim (Bool-cases (leb x.created_at e.created_at)) [
    | inl b ↦ rw b refl
    | inr b ↦ rw b (omega (arith, count_if-insert_newest e xs))
  ]

  pub count_if-newest_first : (xs : List MemoryEntry) → count_if p (newest_first xs) ≡ count_if p xs
  count_if-newest_first [] = refl
  count_if-newest_first (x ∷ xs) =
      omega (arith, count_if-insert_newest x (newest_first xs), count_if-newest_first xs)

-- What is dropped is no newer than anything that is kept.
pub take-Newest :
    (n : ℕ) (xs : List MemoryEntry)
    → IsNewestFirst xs
    → All (λ k. All (λ d. d.created_at ≤ k.created_at) (drop n xs)) (take n xs)
take-Newest zero xs h = tt
take-Newest (suc n) [] h = tt
take-Newest (suc n) (x ∷ xs) h = (All-drop _ n xs h.0, take-Newest n xs h.1)

pub drop_short : (n : ℕ) (xs : List MemoryEntry) → length (take n xs) < n → drop n xs ≡ []
drop_short zero xs h = elim h [ ]
drop_short (suc n) [] h = refl
drop_short (suc n) (x ∷ xs) h = drop_short n xs (omega arith)
