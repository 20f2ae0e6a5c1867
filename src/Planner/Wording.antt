-- ===== src/Planner/Wording.antt =====
-- The texts of a plan: f-strings over JSON values, and orchestrator/flag_text.py. Python's `repr` of
-- a list or an object is a parameter.
use Prim.Native.Char.{Char, code}
use Prim.Native.String.{◌++◌ as append_text, char_at}
use adam_abundance.Base.{
  ℕ, zero, suc, ◌*◌, ◌/◌, ◌%◌, String, Bool, true, false, not, Option, none, some, List, [], ◌∷◌,
  ltb, ◌==◌, str_eq, if◌then◌else◌,
}
use adam_abundance.Base.Text.{codes, same_codes}
use adam_abundance.Memory.Types.{
  Value, null, text, spelled, num, bool, list, object, Fields, no_fields, field, no_elements,
  element, Payload,
}

abbrev pub join : List String → String
join [] = ""
join (s ∷ ss) = append_text s (join ss)

abbrev pub separated : String → List String → String
separated sep [] = ""
separated sep (s ∷ []) = s
separated sep (s ∷ t ∷ ss) = join (s ∷ sep ∷ separated sep (t ∷ ss) ∷ [])

abbrev digit : ℕ → String
digit d = String.◌∷◌ (char_at "0123456789" d) String.[]

abbrev decimal_on : ℕ → ℕ → String → String
decimal_on zero n acc = acc
decimal_on (suc fuel) n acc =
    let more = decimal_on fuel (n / 10) (append_text (digit (n % 10)) acc) in
    if ltb n 10 then append_text (digit n) acc else more

-- A number has at most as many digits as its successor counts.
abbrev pub decimal : ℕ → String
decimal n = decimal_on (suc n) n ""

abbrev pub is_truthy : Value → Bool
is_truthy null = false
is_truthy (text s) = not (str_eq s "")
is_truthy (spelled []) = false
is_truthy (spelled (c ∷ cs)) = true
is_truthy (num n) = not (n == 0)
is_truthy (bool b) = b
is_truthy (list no_elements) = false
is_truthy (list (element v vs)) = true
is_truthy (object no_fields) = false
is_truthy (object (field k v f)) = true

-- `p.get(k, default)`
abbrev pub get_or : String → Value → Payload → Value
get_or k d [] = d
get_or k d ((j, v) ∷ p) = if str_eq j k then v else get_or k d p

abbrev pub get : String → Payload → Value
get k p = get_or k null p

abbrev pub is_text : String → Value → Bool
is_text s (text t) = str_eq t s
is_text s (spelled cs) = same_codes cs (codes s)
is_text s _ = false

-- `a or b`
abbrev pub truthy_or : Value → Value → Value
truthy_or a b = if is_truthy a then a else b

abbrev pub as_fields : Payload → Fields
as_fields [] = no_fields
as_fields ((k, v) ∷ p) = field k v (as_fields p)

-- `s.replace("_", " ")`
abbrev pub spaced : String → String
spaced String.[] = String.[]
spaced (String.◌∷◌ c s) = let rest = spaced s in String.◌∷◌ (if code c == b'_' then " " else c) rest

abbrev matching : Char → String → String → Char
matching c (String.◌∷◌ a as') (String.◌∷◌ b bs) =
    let rest = matching c as' bs in if code c == code a then b else rest
matching c _ _ = c

-- `s[:1].upper() + s[1:]`, for ASCII letters
abbrev pub capitalised : String → String
capitalised String.[] = String.[]
capitalised (String.◌∷◌ c s) =
    String.◌∷◌ (matching c "abcdefghijklmnopqrstuvwxyz" "ABCDEFGHIJKLMNOPQRSTUVWXYZ") s

abbrev pub is_number : Value → Bool
is_number (num n) = true
is_number (bool b) = true
is_number _ = false

abbrev as_number : Value → ℕ
as_number (num n) = n
as_number (bool true) = 1
as_number _ = 0

-- `_IDENT_FIELDS`
abbrev pub ident_fields : List String
ident_fields = "writer" ∷ "url" ∷ "name" ∷ "title" ∷ "metric" ∷ "topic" ∷ []

abbrev is_blank : Value → Bool
is_blank null = true
is_blank v = is_text "" v

module _ (repr : Value → String) where
  -- `str(v)`
  abbrev pub shown : Value → String
  shown null = "None"
  shown (text s) = s
  shown (num n) = decimal n
  shown (bool true) = "True"
  shown (bool false) = "False"
  shown v = repr v

  abbrev first_ident : List String → Payload → Option String
  first_ident [] p = none
  first_ident (k ∷ ks) p =
      let rest = first_ident ks p in if is_blank (get k p) then rest else some (shown (get k p))

  abbrev after_ident : String → String → Option String → String
  after_ident before behind none = ""
  after_ident before behind (some i) = join (before ∷ i ∷ behind ∷ [])

  abbrev detail : List String → String
  detail [] = ""
  detail (b ∷ bits) = join (" (" ∷ separated " · " (b ∷ bits) ∷ ")" ∷ [])

  abbrev index_bits : Value → Value → List String
  index_bits idx arts =
      let counted = if is_truthy arts then join (shown arts ∷ " articles" ∷ []) ∷ [] else [] in
      if is_number idx
      then join (decimal (as_number idx * 100) ∷ "% of the cohort average" ∷ []) ∷ counted
      else counted

  abbrev describe_writer : String → Value → Value → String × String
  describe_writer writer idx arts = (
    join ("Underperforming writer: " ∷ writer ∷ detail (index_bits idx arts) ∷ []),
    join (
        writer
        ∷ " is scoring below the performance index"
        ∷ (if is_number idx
            then join (" — relative index " ∷ shown idx ∷ " (1.0 = cohort average)" ∷ [])
            else "")
        ∷ (if is_truthy arts then join (", " ∷ shown arts ∷ " recent articles" ∷ []) else "")
        ∷ ". Consider coaching, reassigning topics, or rebalancing the writer mix."
        ∷ []),
  )

  abbrev describe_other : String → Option String → String × String
  describe_other label ident = (
    append_text (if str_eq label "" then "Flag" else capitalised label)
        (after_ident " — " "" ident),
    join (
        "Flag “"
        ∷ label
        ∷ "” surfaced"
        ∷ after_ident " (" ")" ident
        ∷ " — review the details (expand params) and action or dismiss."
        ∷ []),
  )

  -- The title and the rationale of a flag.
  unfoldable pub describe_flag : Payload → String × String
  describe_flag p =
      let kind = truthy_or (get "kind" p) (text "flag") in
      if is_text "writer_below_index" kind
      then describe_writer (shown (truthy_or (get "writer" p) (text "A writer")))
          (get "relative_index" p) (get "articles" p)
      else describe_other (spaced (shown kind)) (first_ident ident_fields p)
