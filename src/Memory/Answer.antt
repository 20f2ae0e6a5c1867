-- ===== src/Memory/Answer.antt =====
-- What a read of the memory (`MemoryStore.query` of memory/store.py) returns.
use adam_abundance.Base.{
  ℕ, ◌+◌, ◌≤◌, ◌<◌, ◌≡◌, refl, sym, ◌∙◌, ◌↔◌, ◌⊎◌, inl, inr, String, Bool, true, false, not, ◌&&◌,
  ◌||◌, Option, none, some, List, [], ◌∷◌, keep, count_if, length, length-take_le, take, drop, any,
  str_eq, eq_iff, if◌then◌else◌, arith, All, All-take, All-keep, Bool-cases, count_if-take-drop,
}
use adam_abundance.Memory.Types.{EntryType, EntryStatus, MemoryEntry, Memory, Payload}
use adam_abundance.Memory.Store.{
  Query, matches, query, newest_first, same_type, same_status, brand_matches, type_matches,
  text_matches, column_matches, flag_matches, status_matches, at_least, fresh_within,
  payload_matches,
}
use adam_abundance.Memory.Sweep.{
  IsNewestFirst, All-newest_first, newest_first-IsNewestFirst, take-IsNewestFirst,
  count_if-newest_first, take-Newest, drop_short,
}

-- A row meets the conditions of a query that are given.
pub record Meets (contains : Payload → Payload → Bool) (now : ℕ) (q : Query) (e : MemoryEntry)
    : Type 0 where
  pub brand :
      (b : String)
      → q.brand ≡ some b
      → (e.brand ≡ b) ⊎ ((q.include_portfolio ≡ true) × (e.brand ≡ "portfolio"))
  pub type : (q.types ≡ []) ⊎ (any (same_type e.type) q.types ≡ true)
  pub agent : (a : String) → q.source_agent ≡ some a → e.source_agent ≡ a
  pub system : (a : String) → q.source_system ≡ some a → e.source_system ≡ some a
  pub verified : (v : Bool) → q.verified ≡ some v → e.verified ≡ v
  pub status : (st : EntryStatus) → q.status ≡ some st → e.status ≡ st
  pub since : (t : ℕ) → q.since ≡ some t → t ≤ e.created_at
  pub fresh : (d : ℕ) → q.fresh_within_seconds ≡ some d → now ≤ e.created_at + d
  pub payload : (p : Payload) → q.payload_contains ≡ some p → contains e.payload p ≡ true

parts :
    (a b c d e f g h i : Bool)
    → (a && b && c && d && e && f && g && h && i) ≡ true
    → (a ≡ true)
      × (b ≡ true)
      × (c ≡ true)
      × (d ≡ true)
      × (e ≡ true)
      × (f ≡ true)
      × (g ≡ true)
      × (h ≡ true)
      × (i ≡ true)
parts true true true true true true true true i k =
    (refl, refl, refl, refl, refl, refl, refl, refl, k)
parts true true true true true true true false i k = absurd (cc k)
parts true true true true true true false h i k = absurd (cc k)
parts true true true true true false g h i k = absurd (cc k)
parts true true true true false f g h i k = absurd (cc k)
parts true true true false e f g h i k = absurd (cc k)
parts true true false d e f g h i k = absurd (cc k)
parts true false c d e f g h i k = absurd (cc k)
parts false b c d e f g h i k = absurd (cc k)

or_both : (a b : Bool) → (a || b) ≡ true → (a ≡ true) ⊎ (b ≡ true)
or_both true b h = inl refl
or_both false b h = inr h

same_given : (d c : String) → ◌≡◌ {A = Option String} (some d) (some c) → d ≡ c
same_given d c e = cc

-- The brand of a row, by the two tests of the code.
of_brand :
    (p o : Bool) (d b : String)
    → (if p && o then str_eq b d || str_eq b "portfolio" else str_eq b d) ≡ true
    → (b ≡ d) ⊎ ((p ≡ true) × (b ≡ "portfolio"))
of_brand true true d b h = elim (or_both (str_eq b d) (str_eq b "portfolio") h) [
  | inl e ↦ inl ((eq_iff b d).0 e)
  | inr e ↦ inr (refl, (eq_iff b "portfolio").0 e)
]
of_brand true false d b h = inl ((eq_iff b d).0 h)
of_brand false o d b h = inl ((eq_iff b d).0 h)

brand_matched :
    (want : Option String) (p : Bool) (b : String)
    → brand_matches want p b ≡ true
    → (c : String) → want ≡ some c
    → (b ≡ c) ⊎ ((p ≡ true) × (b ≡ "portfolio"))
brand_matched none p b h c e = absurd (cc)
brand_matched (some d) p b h c e =
    rw (← same_given d c e) (of_brand p (not (str_eq d "portfolio")) d b h)

or_left : (a b : Bool) → a ≡ true → (a || b) ≡ true
or_left a b h = rw h refl

or_right : (a b : Bool) → b ≡ true → (a || b) ≡ true
or_right true b h = refl
or_right false b h = h

brand_found :
    (want : Option String) (p : Bool) (b : String)
    → ((c : String) → want ≡ some c → (b ≡ c) ⊎ ((p ≡ true) × (b ≡ "portfolio")))
    → brand_matches want p b ≡ true
brand_found none p b h = refl
brand_found (some d) p b h = elim (h d refl) [
  | inl e ↦ own p (not (str_eq d "portfolio")) ((eq_iff b d).1 e)
  | inr (t, e) ↦ elim (Bool-cases (str_eq d "portfolio")) [
    | inl f ↦
        own p (not (str_eq d "portfolio")) ((eq_iff b d).1 (e ∙ sym ((eq_iff d "portfolio").0 f)))
    | inr f ↦ rw (t, f) (or_right (str_eq b d) (str_eq b "portfolio") ((eq_iff b "portfolio").1 e))
  ]
]
  where
    own :
        (p o : Bool)
        → str_eq b d ≡ true
        → (if p && o then str_eq b d || str_eq b "portfolio" else str_eq b d) ≡ true
    own true true k = or_left (str_eq b d) (str_eq b "portfolio") k
    own true false k = k
    own false o k = k

type_matched :
    (want : List EntryType) (t : EntryType)
    → type_matches want t ≡ true
    → (want ≡ []) ⊎ (any (same_type t) want ≡ true)
type_matched [] t h = inl refl
type_matched (w ∷ ws) t h = inr h

text_matched :
    (want : Option String) (s : String)
    → text_matches want s ≡ true
    → (a : String) → want ≡ some a
    → s ≡ a
text_matched none s h a e = cc
text_matched (some t) s h a e = (eq_iff s t).0 h ∙ some_inj t a e
  where
    some_inj : (t a : String) → ◌≡◌ {A = Option String} (some t) (some a) → t ≡ a
    some_inj t a e = cc

column_matched :
    (want s : Option String)
    → column_matches want s ≡ true
    → (a : String) → want ≡ some a
    → s ≡ some a
column_matched none s h a e = cc
column_matched (some t) none h a e = cc
column_matched (some t) (some s) h a e = let k = (eq_iff s t).0 h in cc

flag_matched :
    (want : Option Bool) (b : Bool)
    → flag_matches want b ≡ true
    → (v : Bool) → want ≡ some v
    → b ≡ v
flag_matched none b h v e = cc
flag_matched (some true) b h v e = cc
flag_matched (some false) true h v e = cc
flag_matched (some false) false h v e = cc

same_status_sound : (a b : EntryStatus) → same_status a b ≡ true → b ≡ a
same_status_sound EntryStatus.active EntryStatus.active h = refl
same_status_sound EntryStatus.expired EntryStatus.expired h = refl
same_status_sound EntryStatus.superseded EntryStatus.superseded h = refl
same_status_sound EntryStatus.active EntryStatus.expired h = cc
same_status_sound EntryStatus.active EntryStatus.superseded h = cc
same_status_sound EntryStatus.expired EntryStatus.active h = cc
same_status_sound EntryStatus.expired EntryStatus.superseded h = cc
same_status_sound EntryStatus.superseded EntryStatus.active h = cc
same_status_sound EntryStatus.superseded EntryStatus.expired h = cc

status_matched :
    (want : Option EntryStatus) (st : EntryStatus)
    → status_matches want st ≡ true
    → (s : EntryStatus) → want ≡ some s
    → st ≡ s
status_matched none st h s e = cc
status_matched (some w) st h s e = let k = same_status_sound w st h in cc

since_matched : (want : Option ℕ) (t : ℕ) → at_least want t ≡ true → (s : ℕ) → want ≡ some s → s ≤ t
since_matched none t h s e = absurd (cc)
since_matched (some n) t h s e = ground (arith, number n s e)
  where
    number : (n s : ℕ) → ◌≡◌ {A = Option ℕ} (some n) (some s) → n ≡ s
    number n s e = cc

fresh_matched :
    (now : ℕ) (want : Option ℕ) (t : ℕ)
    → fresh_within now want t ≡ true
    → (d : ℕ) → want ≡ some d
    → now ≤ t + d
fresh_matched now none t h d e = absurd (cc)
fresh_matched now (some n) t h d e = ground (arith, number n d e)
  where
    number : (n s : ℕ) → ◌≡◌ {A = Option ℕ} (some n) (some s) → n ≡ s
    number n s e = cc

type_found :
    (want : List EntryType) (t : EntryType)
    → (want ≡ []) ⊎ (any (same_type t) want ≡ true)
    → type_matches want t ≡ true
type_found [] t h = refl
type_found (w ∷ ws) t (inl e) = absurd (cc e)
type_found (w ∷ ws) t (inr h) = h

text_found :
    (want : Option String) (s : String)
    → ((a : String) → want ≡ some a → s ≡ a)
    → text_matches want s ≡ true
text_found none s h = refl
text_found (some t) s h = (eq_iff s t).1 (h t refl)

column_found :
    (want s : Option String)
    → ((a : String) → want ≡ some a → s ≡ some a)
    → column_matches want s ≡ true
column_found none s h = refl
column_found (some t) none h = let e = h t refl in absurd (cc e)
column_found (some t) (some s) h = (eq_iff s t).1 (same_given s t (h t refl))

flag_found :
    (want : Option Bool) (b : Bool)
    → ((v : Bool) → want ≡ some v → b ≡ v)
    → flag_matches want b ≡ true
flag_found none b h = refl
flag_found (some true) b h = h true refl
flag_found (some false) b h = rw (h false refl) refl

same_status_refl : (a : EntryStatus) → same_status a a ≡ true
same_status_refl EntryStatus.active = refl
same_status_refl EntryStatus.expired = refl
same_status_refl EntryStatus.superseded = refl

status_found :
    (want : Option EntryStatus) (st : EntryStatus)
    → ((s : EntryStatus) → want ≡ some s → st ≡ s)
    → status_matches want st ≡ true
status_found none st h = refl
status_found (some w) st h = rw (h w refl) (same_status_refl w)

since_found : (want : Option ℕ) (t : ℕ) → ((s : ℕ) → want ≡ some s → s ≤ t) → at_least want t ≡ true
since_found none t h = refl
since_found (some n) t h = let k = h n refl in ground arith

fresh_found :
    (now : ℕ) (want : Option ℕ) (t : ℕ)
    → ((d : ℕ) → want ≡ some d → now ≤ t + d)
    → fresh_within now want t ≡ true
fresh_found now none t h = refl
fresh_found now (some n) t h = let k = h n refl in ground arith

module _ (contains : Payload → Payload → Bool) where
  payload_matched :
      (want : Option Payload) (p : Payload)
      → payload_matches contains want p ≡ true
      → (x : Payload) → want ≡ some x
      → contains p x ≡ true
  payload_matched none p h x e = absurd (cc)
  payload_matched (some y) p h x e = rw (← payload_inj y x e) h
    where
      payload_inj : (y x : Payload) → ◌≡◌ {A = Option Payload} (some y) (some x) → y ≡ x
      payload_inj y x e = cc

  payload_found :
      (want : Option Payload) (p : Payload)
      → ((x : Payload) → want ≡ some x → contains p x ≡ true)
      → payload_matches contains want p ≡ true
  payload_found none p h = refl
  payload_found (some y) p h = h y refl

  matches-Meets :
      (now : ℕ) (q : Query) (e : MemoryEntry)
      → matches contains now q e ≡ true
      → Meets contains now q e
  unfolding matches
  matches-Meets now q e h =
      let (h1, h2, h3, h4, h5, h6, h7, h8, h9) =
        parts (brand_matches q.brand q.include_portfolio e.brand) (type_matches q.types e.type)
          (text_matches q.source_agent e.source_agent)
          (column_matches q.source_system e.source_system) (flag_matches q.verified e.verified)
          (status_matches q.status e.status) (at_least q.since e.created_at)
          (fresh_within now q.fresh_within_seconds e.created_at)
          (payload_matches contains q.payload_contains e.payload) h in
      record {
        brand = brand_matched q.brand q.include_portfolio e.brand h1;
        type = type_matched q.types e.type h2;
        agent = text_matched q.source_agent e.source_agent h3;
        system = column_matched q.source_system e.source_system h4;
        verified = flag_matched q.verified e.verified h5;
        status = status_matched q.status e.status h6;
        since = since_matched q.since e.created_at h7;
        fresh = fresh_matched now q.fresh_within_seconds e.created_at h8;
        payload = payload_matched q.payload_contains e.payload h9;
      }

  Meets-matches :
      (now : ℕ) (q : Query) (e : MemoryEntry)
      → Meets contains now q e
      → matches contains now q e ≡ true
  unfolding matches
  Meets-matches now q e h =
      rw
        (
          brand_found q.brand q.include_portfolio e.brand h.brand,
          type_found q.types e.type h.type,
          text_found q.source_agent e.source_agent h.agent,
          column_found q.source_system e.source_system h.system,
          flag_found q.verified e.verified h.verified,
          status_found q.status e.status h.status,
          since_found q.since e.created_at h.since,
          fresh_found now q.fresh_within_seconds e.created_at h.fresh,
        )
        (payload_found q.payload_contains e.payload h.payload)

  All-Meets :
      (now : ℕ) (q : Query) (es : List MemoryEntry)
      → All (λ e. matches contains now q e ≡ true) es
      → All (Meets contains now q) es
  All-Meets now q [] h = tt
  All-Meets now q (e ∷ es) h = (matches-Meets now q e h.0, All-Meets now q es h.1)

  count_if-keep :
      (p r : MemoryEntry → Bool) (es : List MemoryEntry)
      → count_if p (keep r es) ≡ count_if (λ e. r e && p e) es
  count_if-keep p r [] = refl
  count_if-keep p r (e ∷ es) = elim (Bool-cases (r e)) [
    | inl b ↦ rw b (omega (arith, count_if-keep p r es))
    | inr b ↦ rw b (omega (arith, count_if-keep p r es))
  ]

  -- A query returns the newest rows of the table that meet its conditions. Its test holds of a row
  -- exactly where the row meets them; the rows it returns meet them and come newest first, at most
  -- limit of them; it leaves out none that is newer than one it returns, and none while there is
  -- room; the two parts together are the rows of the table that meet the conditions, each as often.
  pub query_sound :
      (now : ℕ) (q : Query) (m : Memory)
      → ((e : MemoryEntry) → (matches contains now q e ≡ true) ↔ Meets contains now q e)
        × All (Meets contains now q) (query contains now q m)
        × IsNewestFirst (query contains now q m)
        × (length (query contains now q m) ≤ q.limit)
        × ((left : List MemoryEntry) × All
              (λ k. All (λ d. d.created_at ≤ k.created_at) left)
              (query contains now q m)
            × (length (query contains now q m) < q.limit → left ≡ [])
            × ((p : MemoryEntry → Bool)
                → count_if p (query contains now q m) + count_if p left
                  ≡ count_if (λ e. matches contains now q e && p e) m.entries))
  unfolding query
  query_sound now q m =
      let kept : List MemoryEntry = keep (matches contains now q) m.entries in
      let rows : List MemoryEntry = newest_first kept in
      (
        (λ e. (matches-Meets now q e, Meets-matches now q e)),
        All-Meets now q (take q.limit rows) (
            All-take _ q.limit rows
              (All-newest_first _ kept (All-keep (matches contains now q) m.entries))),
        take-IsNewestFirst q.limit rows (newest_first-IsNewestFirst kept),
        length-take_le q.limit rows,
        (
          drop q.limit rows,
          take-Newest q.limit rows (newest_first-IsNewestFirst kept),
          drop_short q.limit rows,
          (λ p.
              count_if-take-drop p q.limit rows
              ∙ count_if-newest_first p kept
              ∙ count_if-keep p (matches contains now q) m.entries),
        ),
      )
