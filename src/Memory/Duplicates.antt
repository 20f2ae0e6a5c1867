-- ===== src/Memory/Duplicates.antt =====
-- What `supersede_duplicates` of memory/store.py leaves of each series of snapshots.
use mathlib.Core.Path.{subst}
use adam_abundance.Base.{
  ℕ, ◌+◌, ◌≤◌, ◌≡◌, refl, sym, ap, ◌∙◌, String, Bool, true, false, not, ◌&&◌, ◌==◌, Option, none,
  some, List, keep, map, arith,
}
use adam_abundance.Memory.Types.{EntryStatus, Payload, MemoryEntry, Memory}
use adam_abundance.Memory.Store.{set_status_if}
use adam_abundance.Memory.Snapshots.{
  is_candidate, same_series, newest_of, is_id_of, is_kept, is_duplicate, superseded_rows,
  supersede_duplicates, supersede_duplicates_counts,
}
use adam_abundance.Memory.Newest.{
  In, In-keep, In-map, In-map_inv, any-In, any-found, Newest, newest_of-Newest, newest_of-exists,
  same_series_refl, same_series-eq,
}

-- Rows of one id are one row.
abbrev pub UniqueIds : List MemoryEntry → Type 0
UniqueIds es = (e f : MemoryEntry) → In e es → In f es → e.id ≡ f.id → e ≡ f

and_left : (a b : Bool) → (a && b) ≡ true → a ≡ true
and_left true b h = refl
and_left false b h = absurd (cc h)

and_right : (a b : Bool) → (a && b) ≡ true → b ≡ true
and_right true b h = h
and_right false b h = absurd (cc h)

id_of_found :
    (i : ℕ) (o : Option MemoryEntry)
    → is_id_of i o ≡ true
    → (g : MemoryEntry) × (o ≡ some g) × (g.id ≡ i)
id_of_found i none h = absurd (cc h)
id_of_found i (some g) h = (g, refl, ground arith)

superseded_inactive :
    (e : MemoryEntry) → is_candidate (record e { status = EntryStatus.superseded }) ≡ false
superseded_inactive e = refl

module _ (kind_of : Payload → Option String) (es : List MemoryEntry) where
  abbrev series : MemoryEntry → MemoryEntry → Bool
  series e f = is_candidate f && same_series kind_of e f

  abbrev after_sweep : MemoryEntry → MemoryEntry
  after_sweep = set_status_if (is_duplicate kind_of es) EntryStatus.superseded

  -- An active snapshot has a row of its series that is at least as new and is kept.
  kept_of :
      (e : MemoryEntry)
      → In e es
      → is_candidate e ≡ true
      → (f : MemoryEntry) × In f es
        × (is_candidate f ≡ true)
        × (same_series kind_of e f ≡ true)
        × (e.created_at ≤ f.created_at)
        × (is_duplicate kind_of es f ≡ false)
  kept_of e i c =
      let own : series e e ≡ true = rw (c, same_series_refl kind_of e) refl in
      let (g, h) = newest_of-exists (series e) e es i own in
      let (j, k, newest) = subst (Newest (series e) es) h (newest_of-Newest (series e) es) in
      let kept : is_kept kind_of es g.id ≡ true =
        any-In (λ x. is_id_of g.id (newest_of (series x) es)) e (keep is_candidate es)
          (In-keep is_candidate e es i c) (rw h (number_refl g.id)) in
      (
        g,
        j,
        and_left (is_candidate g) (same_series kind_of e g) k,
        and_right (is_candidate g) (same_series kind_of e g) k,
        newest e i own,
        rw kept (never (is_candidate g)),
      )
    where
      number_refl : (n : ℕ) → (n == n) ≡ true
      number_refl n = ground arith

      never : (b : Bool) → (b && false) ≡ false
      never true = refl
      never false = refl

  -- A row that is kept is the one that its series picks.
  kept_is :
      (unique : UniqueIds es) (e : MemoryEntry)
      → In e es
      → is_candidate e ≡ true
      → is_duplicate kind_of es e ≡ false
      → newest_of (series e) es ≡ some e
  kept_is unique e i c d =
      let kept = not_false (is_candidate e) (is_kept kind_of es e.id) c d in
      let (x, h, _) =
        any-found (λ x. is_id_of e.id (newest_of (series x) es)) is_candidate es kept in
      let (g, n, id) = id_of_found e.id (newest_of (series x) es) h in
      let (j, k, _) = subst (Newest (series x) es) n (newest_of-Newest (series x) es) in
      let same =
        same_series-eq kind_of x g (and_right (is_candidate g) (same_series kind_of x g) k) in
      subst (λ y. newest_of (series y) es ≡ some y) (unique g e j i id)
        (sym (λ t. newest_of (λ f. is_candidate f && same f t) es) ∙ n)
    where
      not_false : (a b : Bool) → a ≡ true → (a && not b) ≡ false → b ≡ true
      not_false true true h k = refl
      not_false true false h k = absurd (cc k)
      not_false false b h k = absurd (cc h)

  -- Two rows of one series that are both kept are one row.
  one_kept :
      (unique : UniqueIds es) (e f : MemoryEntry)
      → In e es
      → In f es
      → is_candidate e ≡ true
      → is_candidate f ≡ true
      → is_duplicate kind_of es e ≡ false
      → is_duplicate kind_of es f ≡ false
      → same_series kind_of e f ≡ true
      → e ≡ f
  one_kept unique e f i j c c' d d' h =
      let same = same_series-eq kind_of e f h in
      some_inj e f (
        sym (kept_is unique e i c d)
        ∙ (λ t. newest_of (λ x. is_candidate x && same x t) es)
        ∙ kept_is unique f j c' d')
    where
      some_inj : (e f : MemoryEntry) → ◌≡◌ {A = Option MemoryEntry} (some e) (some f) → e ≡ f
      some_inj e f k = cc

  -- An active snapshot after the sweep is one before it that is kept.
  still_active :
      (e : MemoryEntry)
      → In e (map after_sweep es)
      → is_candidate e ≡ true
      → In e es × (is_duplicate kind_of es e ≡ false)
  still_active e i c =
      let (x, j, h) = In-map_inv after_sweep e es i in
      by_case (is_duplicate kind_of es x) x refl j h
    where
      by_case :
          (b : Bool) (x : MemoryEntry)
          → is_duplicate kind_of es x ≡ b
          → In x es
          → after_sweep x ≡ e
          → In e es × (is_duplicate kind_of es e ≡ false)
      by_case true x k j h =
          let r : record x { status = EntryStatus.superseded } ≡ e = rw k at h in
          let q : true ≡ false = sym c ∙ ap is_candidate (sym r) in absurd (cc q)
      by_case false x k j h =
          let r : x ≡ e = rw k at h in
          subst (λ y. In y es × (is_duplicate kind_of es y ≡ false)) r (j, k)

  kept_stays :
      (e : MemoryEntry) → In e es → is_duplicate kind_of es e ≡ false → In e (map after_sweep es)
  kept_stays e i d = subst (λ y. In y (map after_sweep es)) (unswept d) (In-map after_sweep e es i)
    where
      unswept : is_duplicate kind_of es e ≡ false → after_sweep e ≡ e
      unswept k = rw k refl

module _ (kind_of : Payload → Option String) where
  -- Where rows of one id are one row: after the sweep no two active snapshots are of one series
  -- (brand, type, source system and kind); every row that was an active snapshot has an active one
  -- of its series, which was there before and is at least as new; every other row is as it was; and
  -- as many rows more are superseded as the sweep returned.
  pub supersede_duplicates_lem :
      (m : Memory)
      → UniqueIds m.entries
      → let (n, m') = supersede_duplicates kind_of m in
        ((e f : MemoryEntry)
          → In e m'.entries
          → In f m'.entries
          → is_candidate e ≡ true
          → is_candidate f ≡ true
          → same_series kind_of e f ≡ true
          → e ≡ f)
        × ((e : MemoryEntry)
            → In e m.entries
            → is_candidate e ≡ true
            → (f : MemoryEntry) × In f m.entries
              × In f m'.entries
              × (is_candidate f ≡ true)
              × (same_series kind_of e f ≡ true)
              × (e.created_at ≤ f.created_at))
        × ((e : MemoryEntry) → In e m.entries → is_candidate e ≡ false → In e m'.entries)
        × (superseded_rows m'.entries ≡ superseded_rows m.entries + n)
  unfolding supersede_duplicates
  supersede_duplicates_lem m unique =
      let es = m.entries in
      (
        (λ e f i j c c' h.
            let (i', d) = still_active kind_of es e i c in
            let (j', d') = still_active kind_of es f j c' in
            one_kept kind_of es unique e f i' j' c c' d d' h),
        (λ e i c.
            let (f, j, c', h, l, d) = kept_of kind_of es e i c in
            (f, j, kept_stays kind_of es f j d, c', h, l)),
        (λ e i c. kept_stays kind_of es e i (rw c refl)),
        (supersede_duplicates_counts kind_of m).1,
      )
