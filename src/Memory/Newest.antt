-- ===== src/Memory/Newest.antt =====
-- The newest row of a series, and the key of a series: what `DISTINCT ON (…)` with its order picks in
-- `supersede_duplicates` of memory/store.py.
use mathlib.Core.Path.{subst}
use adam_abundance.Base.{
  ℕ, ◌≤◌, ◌≡◌, refl, sym, ap, ◌∙◌, ◌⊎◌, inl, inr, String, Bool, true, false, ◌&&◌, ◌||◌, Option,
  none, some, List, [], ◌∷◌, any, keep, map, ltb, ◌==◌, str_eq, eq_iff, if◌then◌else◌, arith,
  Bool-cases,
}
use adam_abundance.Memory.Types.{Payload, MemoryEntry}
use adam_abundance.Memory.Store.{type_number, same_type}
use adam_abundance.Memory.Snapshots.{same_text, same_series, newer_of, newest_of}

-- A row is in a table.
abbrev pub In : {A : Type 0} → A → List A → Type 0
In a [] = ⊥
In a (x ∷ xs) = (x ≡ a) ⊎ In a xs

pub In-keep :
    {A : Type 0} (p : A → Bool) (a : A) (xs : List A) → In a xs → p a ≡ true → In a (keep p xs)
In-keep p a [] i h = i
In-keep p a (x ∷ xs) (inl e) h = rw (e, h) (inl refl)
In-keep p a (x ∷ xs) (inr i) h = elim (Bool-cases (p x)) [
  | inl b ↦ rw b (inr (In-keep p a xs i h))
  | inr b ↦ rw b (In-keep p a xs i h)
]

pub In-map : {A B : Type 0} (f : A → B) (a : A) (xs : List A) → In a xs → In (f a) (map f xs)
In-map f a [] i = elim i [ ]
In-map f a (x ∷ xs) (inl e) = inl (ap f e)
In-map f a (x ∷ xs) (inr i) = inr (In-map f a xs i)

pub In-map_inv :
    {A B : Type 0} (f : A → B) (b : B) (xs : List A)
    → In b (map f xs)
    → (a : A) × In a xs × (f a ≡ b)
In-map_inv f b [] i = elim i [ ]
In-map_inv f b (x ∷ xs) (inl e) = (x, inl refl, e)
In-map_inv f b (x ∷ xs) (inr i) = let (a, j, e) = In-map_inv f b xs i in (a, inr j, e)

pub any-In :
    {A : Type 0} (p : A → Bool) (a : A) (xs : List A) → In a xs → p a ≡ true → any p xs ≡ true
any-In p a [] i h = elim i [ ]
any-In p a (x ∷ xs) (inl e) h = rw (e, h) refl
any-In p a (x ∷ xs) (inr i) h = or_second (p x) (any p xs) (any-In p a xs i h)
  where
    or_second : (b c : Bool) → c ≡ true → (b || c) ≡ true
    or_second true c k = refl
    or_second false c k = k

-- One of the rows for which the test holds.
pub any-found :
    {A : Type 0} (p q : A → Bool) (xs : List A)
    → any p (keep q xs) ≡ true
    → (a : A) × (p a ≡ true) × (q a ≡ true)
any-found p q [] h = absurd (cc h)
any-found p q (x ∷ xs) h = elim (Bool-cases (q x)) [
  | inl b ↦ elim (Bool-cases (p x)) [
    | inl c ↦ (x, c, b)
    | inr c ↦ any-found p q xs (rw (b, c) at h)
  ]
  | inr b ↦ any-found p q xs (rw b at h)
]

-- What was picked is a row for which the test holds, and none such is newer.
abbrev pub Newest : (MemoryEntry → Bool) → List MemoryEntry → Option MemoryEntry → Type 0
Newest p es none = (e : MemoryEntry) → In e es → p e ≡ true → ⊥
Newest p es (some g) =
    In g es
    × (p g ≡ true)
    × ((e : MemoryEntry) → In e es → p e ≡ true → e.created_at ≤ g.created_at)

with_hit :
    (p : MemoryEntry → Bool) (x : MemoryEntry) (es : List MemoryEntry) (o : Option MemoryEntry)
    → p x ≡ true
    → Newest p es o
    → Newest p (x ∷ es) (some (newer_of x o))
with_hit p x es none b h = (inl refl, b, bound)
  where
    bound : (e : MemoryEntry) → In e (x ∷ es) → p e ≡ true → e.created_at ≤ x.created_at
    bound e (inl i) k = subst (λ (y : MemoryEntry). y.created_at ≤ x.created_at) i (omega arith)
    bound e (inr i) k = absurd (h e i k)
with_hit p x es (some f) b (i, k, h) = pick (ltb x.created_at f.created_at) refl
  where
    pick :
        (c : Bool)
        → ltb x.created_at f.created_at ≡ c
        → Newest p (x ∷ es) (some (if c then f else x))
    pick true c = (inr i, k, older)
      where
        older : (e : MemoryEntry) → In e (x ∷ es) → p e ≡ true → e.created_at ≤ f.created_at
        older e (inl j) l =
            subst (λ (y : MemoryEntry). y.created_at ≤ f.created_at) j (ground arith)
        older e (inr j) l = h e j l
    pick false c = (inl refl, b, newer)
      where
        newer : (e : MemoryEntry) → In e (x ∷ es) → p e ≡ true → e.created_at ≤ x.created_at
        newer e (inl j) l = subst (λ (y : MemoryEntry). y.created_at ≤ x.created_at) j (omega arith)
        newer e (inr j) l = let a = h e j l in ground arith

with_miss :
    (p : MemoryEntry → Bool) (x : MemoryEntry) (es : List MemoryEntry) (o : Option MemoryEntry)
    → p x ≡ false
    → Newest p es o
    → Newest p (x ∷ es) o
with_miss p x es none b h = missed
  where
    missed : (e : MemoryEntry) → In e (x ∷ es) → p e ≡ true → ⊥
    missed e (inl j) l = let q : true ≡ false = sym l ∙ ap p (sym j) ∙ b in absurd (cc q)
    missed e (inr j) l = h e j l
with_miss p x es (some f) b (i, k, h) = (inr i, k, bound)
  where
    bound : (e : MemoryEntry) → In e (x ∷ es) → p e ≡ true → e.created_at ≤ f.created_at
    bound e (inl j) l = let q : true ≡ false = sym l ∙ ap p (sym j) ∙ b in absurd (cc q)
    bound e (inr j) l = h e j l

pub newest_of-Newest :
    (p : MemoryEntry → Bool) (es : List MemoryEntry) → Newest p es (newest_of p es)
newest_of-Newest p [] = λ e i h. i
newest_of-Newest p (x ∷ es) = elim (Bool-cases (p x)) [
  | inl b ↦ rw b (with_hit p x es (newest_of p es) b (newest_of-Newest p es))
  | inr b ↦ rw b (with_miss p x es (newest_of p es) b (newest_of-Newest p es))
]

pub newest_of-exists :
    (p : MemoryEntry → Bool) (e : MemoryEntry) (es : List MemoryEntry)
    → In e es
    → p e ≡ true
    → (g : MemoryEntry) × (newest_of p es ≡ some g)
newest_of-exists p e [] i h = elim i [ ]
newest_of-exists p e (x ∷ es) (inl i) h = rw (i, h) (newer_of e (newest_of p es), refl)
newest_of-exists p e (x ∷ es) (inr i) h = elim (Bool-cases (p x)) [
  | inl b ↦ rw b (newer_of x (newest_of p es), refl)
  | inr b ↦ rw b (newest_of-exists p e es i h)
]

same_text_sound : (a b : Option String) → same_text a b ≡ true → a ≡ b
same_text_sound none none h = refl
same_text_sound (some a) (some b) h = ap (λ (x : String). some x) ((eq_iff a b).0 h)
same_text_sound none (some b) h = absurd (cc h)
same_text_sound (some a) none h = absurd (cc h)

same_text_refl : (a : Option String) → same_text a a ≡ true
same_text_refl none = refl
same_text_refl (some a) = (eq_iff a a).1 refl

and_parts :
    (a b c d : Bool) → (a && b && c && d) ≡ true → (a ≡ true) × (b ≡ true) × (c ≡ true) × (d ≡ true)
and_parts true true true true h = (refl, refl, refl, refl)
and_parts true true true false h = absurd (cc h)
and_parts true true false d h = absurd (cc h)
and_parts true false c d h = absurd (cc h)
and_parts false b c d h = absurd (cc h)

module _ (kind_of : Payload → Option String) where
  pub same_series_refl : (e : MemoryEntry) → same_series kind_of e e ≡ true
  same_series_refl e =
      rw
        (
          (eq_iff e.brand e.brand).1 refl,
          number_refl (type_number e.type),
          same_text_refl e.source_system,
        )
        (same_text_refl (kind_of e.payload))
    where
      number_refl : (n : ℕ) → (n == n) ≡ true
      number_refl n = ground arith

  -- Rows of one series have the same series.
  pub same_series-eq :
      (e f : MemoryEntry)
      → same_series kind_of e f ≡ true
      → (g : MemoryEntry) → same_series kind_of e g ≡ same_series kind_of f g
  same_series-eq e f h g =
      let (b, t, s, k) =
        and_parts (str_eq e.brand f.brand) (same_type e.type f.type)
          (same_text e.source_system f.source_system)
          (same_text (kind_of e.payload) (kind_of f.payload)) h in
      keyed e.brand f.brand (type_number e.type) (type_number f.type) e.source_system
        f.source_system (kind_of e.payload) (kind_of f.payload) ((eq_iff e.brand f.brand).0 b)
        (number_eq (type_number e.type) (type_number f.type) t)
        (same_text_sound e.source_system f.source_system s)
        (same_text_sound (kind_of e.payload) (kind_of f.payload) k)
    where
      number_eq : (m n : ℕ) → (m == n) ≡ true → m ≡ n
      number_eq m n h = ground arith

      keyed :
          (b b' : String) (t t' : ℕ) (s s' k k' : Option String)
          → b ≡ b'
          → t ≡ t'
          → s ≡ s'
          → k ≡ k'
          → (str_eq b g.brand
              && t == type_number g.type
              && same_text s g.source_system
              && same_text k (kind_of g.payload))
            ≡ (str_eq b' g.brand
                && t' == type_number g.type
                && same_text s' g.source_system
                && same_text k' (kind_of g.payload))
      keyed b b' t t' s s' k k' eb et es ek = rw (eb, et, es, ek) refl
