-- ===== src/Base/Text.antt =====
-- Text: whole texts are compared as `String`; `strip` and `lower` work on the code points, for
-- ASCII text (Python's `str.strip` and `str.lower` also know the other letters and spaces of
-- Unicode).
use Prim.Native.Nat.{ℕ, ◌+◌}
use Prim.Native.Char.{code}
use Prim.Native.String.{String}
use mathlib.Core.Bool.{Bool, true, false, not, ◌&&◌, ◌||◌}
use mathlib.Core.List.{List, [], ◌∷◌, map, reverse}
use text.Mathlib.Text.{◌==◌ as str_eq}
use adam_abundance.Base.Lists.{keep}
use adam_abundance.Base.Tests.{leb, ◌==◌, if◌then◌else◌}

abbrev pub codes : String → List ℕ
codes String.[] = []
codes (String.◌∷◌ c s) = code c ∷ codes s

abbrev pub same_codes : List ℕ → List ℕ → Bool
same_codes [] [] = true
same_codes (x ∷ xs) (y ∷ ys) = x == y && same_codes xs ys
same_codes _ _ = false

-- tab to carriage return, the four separators, and the space
abbrev pub is_space : ℕ → Bool
is_space c = (leb 9 c && leb c 13) || (leb 28 c && leb c 32)

abbrev pub lstrip : List ℕ → List ℕ
lstrip [] = []
lstrip (c ∷ cs) = let rest = lstrip cs in if is_space c then rest else c ∷ cs

abbrev pub strip : List ℕ → List ℕ
strip cs = reverse (lstrip (reverse (lstrip cs)))

abbrev pub lower_code : ℕ → ℕ
lower_code c = if leb b'A' c && leb c b'Z' then c + 32 else c

abbrev pub lower : List ℕ → List ℕ
lower = map lower_code

-- `x in ("a", "b", ...)`
abbrev pub is_one_of : List ℕ → List String → Bool
is_one_of cs [] = false
is_one_of cs (s ∷ ss) = same_codes cs (codes s) || is_one_of cs ss

-- `list(dict.fromkeys(xs))`
abbrev pub distinct : List String → List String
distinct [] = []
distinct (x ∷ xs) = x ∷ keep (λ y. not (str_eq x y)) (distinct xs)
