-- ===== src/Scout/Grouping.antt =====
-- Which signals are in the clusters, and how often.
use adam_abundance.Base.{
  ℕ, ◌+◌, ◌≡◌, refl, sym, ap, ◌∙◌, Bool, true, false, not, ◌&&◌, ◌||◌, List, [], ◌∷◌, ◌++◌, any,
  count_if, count_if-append, ◌==◌, if◌then◌else◌, arith, inl, inr, Bool-cases,
}
use adam_abundance.Base.Text.{same_codes}
use adam_abundance.Scout.Clusters.{
  Signal, Patterns, Cluster, page_url, is_given, seen_among, add_url, is_nonempty, tokens, joins,
  place, is_seen, cluster_on, cluster_signals,
}

abbrev pub all_items : List Cluster → List Signal
all_items [] = []
all_items (c ∷ cs) = c.items ++ all_items cs

-- The page was met in an earlier signal.
abbrev is_repeat : List Signal → Signal → Bool
is_repeat earlier it =
    is_given (page_url it) && any (λ e. same_codes (page_url it) (page_url e)) earlier

-- The signals with a significant word in their title, on a page that no signal before them has.
abbrev pub first_titled : Patterns → List Signal → List Signal → List Signal
first_titled r earlier [] = []
first_titled r earlier (it ∷ its) =
    let rest = first_titled r (it ∷ earlier) its in
    if not (is_repeat earlier it) && is_nonempty (tokens r it.title) then it ∷ rest else rest

equal_of : (x y : ℕ) → (x == y) ≡ true → x ≡ y
equal_of x y h = ground arith

same_cons : (x y : ℕ) (xs ys : List ℕ) → x ≡ y → xs ≡ ys → ◌≡◌ {A = List ℕ} (x ∷ xs) (y ∷ ys)
same_cons x y xs ys e f = cc

same_codes_sound : (xs ys : List ℕ) → same_codes xs ys ≡ true → xs ≡ ys
same_codes_sound [] [] h = refl
same_codes_sound [] (y ∷ ys) h = cc
same_codes_sound (x ∷ xs) [] h = cc
same_codes_sound (x ∷ xs) (y ∷ ys) h = elim (Bool-cases (x == y)) [
  | inl e ↦ elim (Bool-cases (same_codes xs ys)) [
    | inl f ↦ same_cons x y xs ys (equal_of x y e) (same_codes_sound xs ys f)
    | inr f ↦ cc
  ]
  | inr e ↦ cc
]

-- The seen URLs are the pages of the earlier signals.
abbrev Agrees : List (List ℕ) → List Signal → Type 0
Agrees seen earlier =
    (u : List ℕ)
    → is_given u ≡ true
    → seen_among seen u ≡ any (λ e. same_codes u (page_url e)) earlier

module _ (p : Signal → Bool) where
  place-counted :
      (r : Patterns) (it : Signal) (cs : List Cluster)
      → count_if p (all_items (place r it cs)) ≡ count_if p (it ∷ []) + count_if p (all_items cs)
  unfolding place
  place-counted r it [] = omega arith
  place-counted r it (c ∷ cs) = elim (Bool-cases (joins r it c)) [
    | inl e ↦ rw e (
        omega (
          arith,
          count_if-append p c.items (it ∷ []),
          count_if-append p (c.items ++ (it ∷ [])) (all_items cs),
          count_if-append p c.items (all_items cs),
        ))
    | inr e ↦ rw e (
        omega (
          arith,
          place-counted r it cs,
          count_if-append p c.items (all_items (place r it cs)),
          count_if-append p c.items (all_items cs),
        ))
  ]

Agrees-skipped :
    (seen : List (List ℕ)) (earlier : List Signal) (it : Signal)
    → is_given (page_url it) ≡ true
    → seen_among seen (page_url it) ≡ true
    → Agrees seen earlier
    → Agrees seen (it ∷ earlier)
Agrees-skipped seen earlier it g h a u k = elim (Bool-cases (same_codes u (page_url it))) [
  | inl e ↦ rw e (ap (seen_among seen) (same_codes_sound u (page_url it) e) ∙ h)
  | inr e ↦ rw e (a u k)
]

add_url-among :
    (v : List ℕ) (seen : List (List ℕ)) (u : List ℕ)
    → is_given u ≡ true
    → seen_among (add_url v seen) u ≡ (same_codes u v || seen_among seen u)
add_url-among [] seen [] k = cc
add_url-among [] seen (x ∷ u) k = refl
add_url-among (y ∷ v) seen u k = refl

Agrees-taken :
    (seen : List (List ℕ)) (earlier : List Signal) (it : Signal)
    → Agrees seen earlier
    → Agrees (add_url (page_url it) seen) (it ∷ earlier)
Agrees-taken seen earlier it a u k =
    add_url-among (page_url it) seen u k ∙ ap (λ b. same_codes u (page_url it) || b) (a u k)

and_split : (a b : Bool) → (a && b) ≡ true → (a ≡ true) × (b ≡ true)
and_split true b h = (refl, h)
and_split false b h = cc

is_seen-is_repeat :
    (seen : List (List ℕ)) (earlier : List Signal) (it : Signal)
    → Agrees seen earlier
    → is_seen it seen ≡ is_repeat earlier it
is_seen-is_repeat seen earlier it a = elim (Bool-cases (is_given (page_url it))) [
  | inl g ↦ ap (λ b. is_given (page_url it) && b) (a (page_url it) g)
  | inr g ↦ rw g refl
]

module _ (p : Signal → Bool) (r : Patterns) where
  Step : List Signal → List (List ℕ) → List Signal → List Cluster → Type 0
  Step its seen earlier cs =
      count_if p (all_items (cluster_on r its seen cs))
      ≡ count_if p (all_items cs) + count_if p (first_titled r earlier its)

  cluster_on-counted :
      (its : List Signal) (seen : List (List ℕ)) (earlier : List Signal) (cs : List Cluster)
      → Agrees seen earlier
      → Step its seen earlier cs
  unfolding Step
  cluster_on-counted [] seen earlier cs a = omega arith
  cluster_on-counted (it ∷ its) seen earlier cs a =
      let later = cluster_on-counted its in
      elim (Bool-cases (is_seen it seen)) [
        | inl e ↦
            let k = and_split (is_given (page_url it)) (seen_among seen (page_url it)) e in
            rw (e, sym (is_seen-is_repeat seen earlier it a) ∙ e)
              (later seen (it ∷ earlier) cs (Agrees-skipped seen earlier it k.0 k.1 a))
        | inr e ↦
            let seen' = add_url (page_url it) seen in
            let ih = λ (cs' : List Cluster).
              later seen' (it ∷ earlier) cs' (Agrees-taken seen earlier it a) in
            elim (Bool-cases (is_nonempty (tokens r it.title))) [
              | inl t ↦
                  rw (e, sym (is_seen-is_repeat seen earlier it a) ∙ e, t)
                    (ih (place r it cs) ∙ omega (arith, place-counted p r it cs))
              | inr t ↦ rw (e, sym (is_seen-is_repeat seen earlier it a) ∙ e, t) (ih cs)
            ]
      ]

-- The clusters hold, each exactly once, the signals with a significant word in their title whose
-- page no earlier signal has, and no others: of any kind of signal there are equally many in both.
pub all_items-cluster_signals :
    (p : Signal → Bool) (r : Patterns) (its : List Signal)
    → count_if p (all_items (cluster_signals r its)) ≡ count_if p (first_titled r [] its)
unfolding cluster_signals Step
all_items-cluster_signals p r its =
    let started : count_if p (all_items (cluster_on r its [] []))
        ≡ 0 + count_if p (first_titled r [] its) =
      cluster_on-counted p r its [] [] [] (λ u k. refl) in
    omega (arith, started)
