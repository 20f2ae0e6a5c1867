-- ===== src/Planner/Ranking.antt =====
-- How the planner ranks its candidates.
use adam_abundance.Base.{
  ℕ, zero, suc, ◌+◌, ◌≤◌, ◌<◌, ◌≡◌, refl, ◌∙◌, String, Bool, List, [], ◌∷◌, count_if, length, take,
  drop, leb, arith, inl, inr, Bool-cases, All, All-take, All-drop, count_if-take-drop,
  length-take_le,
}
use adam_abundance.Planner.Making.{insert, by_score, or_quiet, quiet_day, chosen}
use adam_abundance.Planner.Candidates.{Candidate}

abbrev pub AtMost : Candidate → List Candidate → Type 0
AtMost c ds = All (λ d. d.score ≤ c.score) ds

-- No candidate has a higher score than one before it.
abbrev pub Descending : List Candidate → Type 0
Descending [] = Unit
Descending (c ∷ cs) = AtMost c cs × Descending cs

AtMost-le : (c d : Candidate) (cs : List Candidate) → c.score ≤ d.score → AtMost c cs → AtMost d cs
AtMost-le c d [] h a = tt
AtMost-le c d (x ∷ cs) h a = (omega (arith, a.0), AtMost-le c d cs h a.1)

AtMost-insert :
    (c d : Candidate) (cs : List Candidate)
    → d.score ≤ c.score
    → AtMost c cs
    → AtMost c (insert d cs)
AtMost-insert c d [] h a = (h, tt)
AtMost-insert c d (x ∷ cs) h a = elim (Bool-cases (leb x.score d.score)) [
  | inl e ↦ rw e (h, a)
  | inr e ↦ rw e (a.0, AtMost-insert c d cs h a.1)
]

insert-Descending : (c : Candidate) (cs : List Candidate) → Descending cs → Descending (insert c cs)
insert-Descending c [] h = (tt, tt)
insert-Descending c (d ∷ ds) h = elim (Bool-cases (leb d.score c.score)) [
  | inl e ↦ rw e ((ground arith, AtMost-le d c ds (ground arith) h.0), h)
  | inr e ↦ rw e (AtMost-insert d c ds (ground arith) h.0, insert-Descending c ds h.1)
]

by_score-Descending : (cs : List Candidate) → Descending (by_score cs)
unfolding by_score
by_score-Descending [] = tt
by_score-Descending (c ∷ cs) = insert-Descending c (by_score cs) (by_score-Descending cs)

module _ (p : Candidate → Bool) where
  count_if-insert :
      (c : Candidate) (cs : List Candidate) → count_if p (insert c cs) ≡ count_if p (c ∷ cs)
  count_if-insert c [] = refl
  count_if-insert c (d ∷ ds) = elim (Bool-cases (leb d.score c.score)) [
    | inl e ↦ rw e refl
    | inr e ↦ rw e (omega (arith, count_if-insert c ds))
  ]

  count_if-by_score : (cs : List Candidate) → count_if p (by_score cs) ≡ count_if p cs
  unfolding by_score
  count_if-by_score [] = refl
  count_if-by_score (c ∷ cs) = omega (arith, count_if-insert c (by_score cs), count_if-by_score cs)

Descending-take : (n : ℕ) (cs : List Candidate) → Descending cs → Descending (take n cs)
Descending-take zero cs h = tt
Descending-take (suc n) [] h = tt
Descending-take (suc n) (c ∷ cs) h =
    (All-take (λ d. d.score ≤ c.score) n cs h.0, Descending-take n cs h.1)

-- What is dropped is below all that is kept.
take-AtMost :
    (n : ℕ) (cs : List Candidate) → Descending cs → All (λ k. AtMost k (drop n cs)) (take n cs)
take-AtMost zero cs h = tt
take-AtMost (suc n) [] h = tt
take-AtMost (suc n) (c ∷ cs) h = (All-drop (λ d. d.score ≤ c.score) n cs h.0, take-AtMost n cs h.1)

drop_short : (n : ℕ) (cs : List Candidate) → length (take n cs) < n → drop n cs ≡ []
drop_short zero cs h = elim h [ ]
drop_short (suc n) [] h = refl
drop_short (suc n) (c ∷ cs) h = drop_short n cs (omega arith)

or_quiet-insert :
    (brand : String) (n : ℕ) (c : Candidate) (cs : List Candidate)
    → or_quiet brand (take (suc n) (insert c cs)) ≡ take (suc n) (insert c cs)
or_quiet-insert brand n c [] = refl
or_quiet-insert brand n c (d ∷ ds) = elim (Bool-cases (leb d.score c.score)) [
  | inl e ↦ rw e refl
  | inr e ↦ rw e refl
]

-- Of one candidate or more, the planner chooses at most twelve, the highest scores first. Those that
-- it leaves out score no more than any that it chose, and it leaves none out while there is room;
-- the two parts together are the candidates, each as often as it was there.
pub chosen_lem :
    (brand : String) (c : Candidate) (cs : List Candidate)
    → (left : List Candidate) × Descending (chosen brand (c ∷ cs))
      × (length (chosen brand (c ∷ cs)) ≤ 12)
      × All (λ k. AtMost k left) (chosen brand (c ∷ cs))
      × (length (chosen brand (c ∷ cs)) < 12 → left ≡ [])
      × ((p : Candidate → Bool)
          → count_if p (chosen brand (c ∷ cs)) + count_if p left ≡ count_if p (c ∷ cs))
unfolding chosen
chosen_lem brand c cs =
    let sorted = by_score (c ∷ cs) in
    rw (or_quiet-insert brand 11 c (by_score cs)) (
      drop 12 sorted,
      Descending-take 12 sorted (by_score-Descending (c ∷ cs)),
      length-take_le 12 sorted,
      take-AtMost 12 sorted (by_score-Descending (c ∷ cs)),
      drop_short 12 sorted,
      (λ p. count_if-take-drop p 12 sorted ∙ count_if-by_score p (c ∷ cs)),
    )

-- What was picked is the best twelve of what was found, in order, or the notice of a quiet day.
abbrev pub Best : String → List Candidate → List Candidate → Type 0
Best brand [] picked = picked ≡ quiet_day brand ∷ []
Best brand (c ∷ cs) picked =
    (left : List Candidate) × Descending picked
    × (length picked ≤ 12)
    × All (λ k. AtMost k left) picked
    × (length picked < 12 → left ≡ [])
    × ((p : Candidate → Bool) → count_if p picked + count_if p left ≡ count_if p (c ∷ cs))

pub chosen-Best : (brand : String) (cs : List Candidate) → Best brand cs (chosen brand cs)
unfolding chosen by_score
chosen-Best brand [] = refl
chosen-Best brand (c ∷ cs) = chosen_lem brand c cs
