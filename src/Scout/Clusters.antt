-- ===== src/Scout/Clusters.antt =====
-- `cluster_signals` of trends/detector.py: the greedy grouping of a scan's signals. A set is a list
-- without repeats, and the threshold of 0.35 is the exact fraction 7/20.
use Prim.Native.String.{◌++◌ as append_text}
use mathlib.Core.List.{reverse}
use adam_abundance.Base.{
  ℕ, ◌+◌, ◌*◌, String, Bool, true, false, not, ◌&&◌, ◌||◌, List, [], ◌∷◌, ◌++◌, map, take, length,
  any, keep, leb, ltb, ◌==◌, str_eq, if◌then◌else◌,
}
use adam_abundance.Base.Text.{distinct, codes, same_codes, is_one_of}

-- A signal: the keys of the dict that the clustering reads, empty where they are missing.
pub record Signal : Type 0 where
  pub url : String
  pub title : String
  pub snippet : String

-- What the regular expressions find: the words of the text in lower case, and the makes it names.
pub record Patterns : Type 0 where
  pub words : String → List String
  pub makes : String → List String

pub record Cluster : Type 0 where
  pub items : List Signal
  pub token_set : List String

abbrev pub among : List String → String → Bool
among xs x = any (λ y. str_eq x y) xs

abbrev pub common : List String → List String → List String
common xs ys = keep (among ys) xs

abbrev pub union : List String → List String → List String
union xs ys = xs ++ keep (λ y. not (among xs y)) ys

-- `_STOP`
abbrev pub stop_words : List String
stop_words =
    "the" ∷ "and" ∷ "for" ∷ "with" ∷ "that" ∷ "this" ∷ "its" ∷ "has" ∷ "have" ∷ "will" ∷ "you"
    ∷ "your" ∷ "are" ∷ "was" ∷ "were" ∷ "been" ∷ "from" ∷ "into" ∷ "over" ∷ "after" ∷ "before"
    ∷ "about" ∷ "than" ∷ "them" ∷ "they" ∷ "their" ∷ "there" ∷ "here" ∷ "what" ∷ "when" ∷ "where"
    ∷ "why" ∷ "how" ∷ "who" ∷ "all" ∷ "any" ∷ "can" ∷ "could" ∷ "should" ∷ "would" ∷ "may" ∷ "might"
    ∷ "just" ∷ "not" ∷ "now" ∷ "new" ∷ "news" ∷ "says" ∷ "said" ∷ "get" ∷ "gets" ∷ "got" ∷ "one"
    ∷ "two" ∷ "more" ∷ "most" ∷ "first" ∷ "best" ∷ "top" ∷ "car" ∷ "cars" ∷ "auto" ∷ "vehicle"
    ∷ "vehicles" ∷ "2024" ∷ "2025" ∷ "2026" ∷ "2027" ∷ []

abbrev pub is_significant : String → Bool
is_significant w = ltb 2 (length (codes w)) && not (is_one_of (codes w) stop_words)

-- The counts of the makes, and `sorted(..., key=lambda kv: (-kv[1], kv[0]))`.
abbrev pub count_one : String → List (String × ℕ) → List (String × ℕ)
count_one o [] = (o, 1) ∷ []
count_one o ((x, n) ∷ cs) =
    let rest = count_one o cs in if str_eq o x then (x, n + 1) ∷ cs else (x, n) ∷ rest

abbrev pub count_all : List String → List (String × ℕ) → List (String × ℕ)
count_all [] cs = cs
count_all (o ∷ os) cs = count_all os (count_one o cs)

abbrev pub precedes : List ℕ → List ℕ → Bool
precedes [] [] = false
precedes [] (y ∷ ys) = true
precedes (x ∷ xs) [] = false
precedes (x ∷ xs) (y ∷ ys) = ltb x y || (x == y && precedes xs ys)

abbrev pub ranks_before : String × ℕ → String × ℕ → Bool
ranks_before (o, n) (o', n') = ltb n' n || (n == n' && precedes (codes o) (codes o'))

abbrev pub insert : String × ℕ → List (String × ℕ) → List (String × ℕ)
insert c [] = c ∷ []
insert c (d ∷ ds) = let rest = insert c ds in if ranks_before d c then d ∷ rest else c ∷ d ∷ ds

abbrev pub ranked : List (String × ℕ) → List (String × ℕ)
ranked [] = []
ranked (c ∷ cs) = insert c (ranked cs)

-- `url.split("?", 1)[0].rstrip("/")`
abbrev pub before_query : List ℕ → List ℕ
before_query [] = []
before_query (c ∷ cs) = let rest = before_query cs in if c == b'?' then [] else c ∷ rest

abbrev pub lstrip_slashes : List ℕ → List ℕ
lstrip_slashes [] = []
lstrip_slashes (c ∷ cs) = let rest = lstrip_slashes cs in if c == b'/' then rest else c ∷ cs

abbrev pub page_url : Signal → List ℕ
page_url it = reverse (lstrip_slashes (reverse (before_query (codes it.url))))

abbrev pub is_given : List ℕ → Bool
is_given [] = false
is_given (c ∷ cs) = true

abbrev pub seen_among : List (List ℕ) → List ℕ → Bool
seen_among seen u = any (same_codes u) seen

abbrev pub is_seen : Signal → List (List ℕ) → Bool
is_seen it seen = is_given (page_url it) && seen_among seen (page_url it)

-- The seen URLs after a signal.
abbrev pub add_url : List ℕ → List (List ℕ) → List (List ℕ)
add_url [] seen = seen
add_url (c ∷ cs) seen = (c ∷ cs) ∷ seen

abbrev pub is_nonempty : List String → Bool
is_nonempty [] = false
is_nonempty (x ∷ xs) = true

-- `_jaccard(a, b) >= 0.35`
abbrev pub is_close : List String → List String → Bool
is_close a b =
    is_nonempty a && is_nonempty b && leb (7 * length (union a b)) (20 * length (common a b))

module _ (r : Patterns) where
  abbrev pub tokens : String → List String
  tokens t = distinct (keep is_significant (r.words t))

  abbrev pub oems : String → List String
  oems t = distinct (r.makes t)

  abbrev pub count_makes : List Signal → List (String × ℕ) → List (String × ℕ)
  count_makes [] cs = cs
  count_makes (it ∷ its) cs =
      count_makes its (count_all (oems (append_text it.title (append_text " " it.snippet))) cs)

  abbrev pub oem_anchor : Cluster → List String
  oem_anchor c = map (λ kv. kv.0) (take 3 (ranked (count_makes c.items [])))

  -- The test of the inner loop.
  abbrev pub joins : Signal → Cluster → Bool
  joins it c =
      let toks = tokens it.title in
      is_close toks c.token_set
      || (is_nonempty (common (oems it.title) (oem_anchor c))
          && leb 2 (length (common toks c.token_set)))

  abbrev pub joined : Signal → Cluster → Cluster
  joined it c = record {
    items = c.items ++ (it ∷ []);
    token_set = union c.token_set (tokens it.title);
  }

  abbrev pub founded : Signal → Cluster
  founded it = record { items = it ∷ []; token_set = tokens it.title }

  -- The inner loop: into the first cluster that the signal joins, else into a new one at the end.
  unfoldable pub place : Signal → List Cluster → List Cluster
  place it [] = founded it ∷ []
  place it (c ∷ cs) = let rest = place it cs in if joins it c then joined it c ∷ cs else c ∷ rest

  abbrev pub place_titled : Signal → List Cluster → List Cluster
  place_titled it cs = if is_nonempty (tokens it.title) then place it cs else cs

  abbrev pub cluster_on : List Signal → List (List ℕ) → List Cluster → List Cluster
  cluster_on [] seen cs = cs
  cluster_on (it ∷ its) seen cs =
      let skipped = cluster_on its seen cs in
      let taken = cluster_on its (add_url (page_url it) seen) (place_titled it cs) in
      if is_seen it seen then skipped else taken

  unfoldable pub cluster_signals : List Signal → List Cluster
  unfolding place
  cluster_signals its = cluster_on its [] []
