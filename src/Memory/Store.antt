-- ===== src/Memory/Store.antt =====
-- `MemoryStore` of memory/store.py: the writes, the reads and the sweeps. `ttls` is the setting
-- of that name, and `now` the time at which the call reads the clock.
use adam_abundance.Base.{
  ℕ, zero, suc, ◌+◌, String, Bool, true, false, not, ◌&&◌, ◌||◌, Option, none, some, List, [], ◌∷◌,
  ◌++◌, map, ltb, leb, ◌==◌, if◌then◌else◌, str_eq, or_else, any, keep, count_if, take, Exec,
  Result, pure, ◌>>=◌,
}
use adam_abundance.Memory.Types.{EntryType, EntryStatus, Payload, EntryDraft, MemoryEntry, Memory}

pub data StoreError : Type 0 where
  invalid_scope : String → StoreError

abbrev pub is_active : EntryStatus → Bool
is_active EntryStatus.active = true
is_active _ = false

abbrev pub is_fact : EntryType → Bool
is_fact EntryType.fact = true
is_fact _ = false

-- `Settings.is_valid_scope`, with the keys of `_BRANDS`.
unfoldable pub is_valid_scope : String → Bool
is_valid_scope brand =
    str_eq brand "portfolio"
    || str_eq brand "hotcars"
    || str_eq brand "carbuzz"
    || str_eq brand "topspeed"

-- A default TTL of zero counts as none.
abbrev pub expiry_of_ttl : ℕ → Option ℕ → Option ℕ
expiry_of_ttl now none = none
expiry_of_ttl now (some zero) = none
expiry_of_ttl now (some (suc ttl)) = some (now + suc ttl)

module _ (ttls : EntryType → Option ℕ) (now : ℕ) where
  abbrev resolve_relative : Option ℕ → EntryType → Option ℕ
  resolve_relative (some ttl) type = some (now + ttl)
  resolve_relative none type = expiry_of_ttl now (ttls type)

  abbrev resolve_absolute : Option ℕ → EntryDraft → Option ℕ
  resolve_absolute (some t) draft = some t
  resolve_absolute none draft = resolve_relative draft.ttl_seconds draft.type

  unfoldable pub resolve_expiry : EntryDraft → Option ℕ
  resolve_expiry draft = resolve_absolute draft.expires_at draft

-- The provenance rule: the type and the verified flag under which a draft is kept.
unfoldable pub apply_fact_gate : EntryDraft → Bool → EntryType × Bool
apply_fact_gate draft fact_gate_ok =
    if draft.verified && not fact_gate_ok
    then (if is_fact draft.type then EntryType.claim else draft.type, false)
    else (draft.type, draft.verified)

module _ (ttls : EntryType → Option ℕ) (now : ℕ) (fact_gate_ok : Bool) where
  unfoldable pub new_entry : EntryDraft → ℕ → MemoryEntry
  unfolding apply_fact_gate resolve_expiry
  new_entry draft id = record {
    id = id;
    type = (apply_fact_gate draft fact_gate_ok).0;
    brand = draft.brand;
    source_agent = draft.source_agent;
    source_system = draft.source_system;
    payload = draft.payload;
    verified = (apply_fact_gate draft fact_gate_ok).1;
    confidence = draft.confidence;
    source_urls = draft.source_urls;
    created_at = now;
    expires_at = resolve_expiry ttls now draft;
    status = or_else draft.status EntryStatus.active;
  }

  unfoldable pub write : EntryDraft → Exec Memory StoreError MemoryEntry
  unfolding new_entry
  write draft m =
      if is_valid_scope draft.brand
      then (
        Result.ok (new_entry draft m.next_id),
        record m { entries = m.entries ++ new_entry draft m.next_id ∷ []; next_id = m.next_id + 1 },
      )
      else (Result.err (invalid_scope draft.brand), m)

  unfoldable pub write_many : List EntryDraft → Exec Memory StoreError (List MemoryEntry)
  write_many [] = pure []
  write_many (d ∷ ds) = do e ← write d; es ← write_many ds; pure (e ∷ es)

-- The status that `UPDATE … SET status` leaves in a row that the condition selects.
abbrev pub set_status_if : (MemoryEntry → Bool) → EntryStatus → MemoryEntry → MemoryEntry
set_status_if p st e = if p e then record e { status = st } else e

abbrev pub has_id : List ℕ → MemoryEntry → Bool
has_id ids e = any (λ i. e.id == i) ids

-- Both sweeps return the new table and the number of rows that they matched.
unfoldable pub supersede : List ℕ → Memory → ℕ × Memory
supersede [] m = (0, m)
supersede (i ∷ ids) m = (
  count_if (has_id (i ∷ ids)) m.entries,
  record m { entries = map (set_status_if (has_id (i ∷ ids)) EntryStatus.superseded) m.entries },
)

abbrev pub before : ℕ → Option ℕ → Bool
before now none = false
before now (some t) = ltb t now

abbrev pub is_stale : ℕ → MemoryEntry → Bool
is_stale now e = is_active e.status && before now e.expires_at

unfoldable pub expire_stale : ℕ → Memory → ℕ × Memory
expire_stale now m = (
  count_if (is_stale now) m.entries,
  record m { entries = map (set_status_if (is_stale now) EntryStatus.expired) m.entries },
)

-- The conditions of `query`; `contains` is Postgres' containment of JSON (`@>`).
pub record Query : Type 0 where
  pub brand : Option String
  pub include_portfolio : Bool
  pub types : List EntryType
  pub source_agent : Option String
  pub source_system : Option String
  pub verified : Option Bool
  pub since : Option ℕ
  pub fresh_within_seconds : Option ℕ
  pub payload_contains : Option Payload
  pub status : Option EntryStatus
  pub limit : ℕ

abbrev pub brand_matches : Option String → Bool → String → Bool
brand_matches none include_portfolio b = true
brand_matches (some brand) include_portfolio b =
    if include_portfolio && not (str_eq brand "portfolio")
    then str_eq b brand || str_eq b "portfolio"
    else str_eq b brand

abbrev pub text_matches : Option String → String → Bool
text_matches none s = true
text_matches (some t) s = str_eq s t

-- A missing column matches no given text.
abbrev pub column_matches : Option String → Option String → Bool
column_matches none s = true
column_matches (some t) none = false
column_matches (some t) (some s) = str_eq s t

abbrev pub same_bool : Bool → Bool → Bool
same_bool true b = b
same_bool false b = not b

abbrev pub flag_matches : Option Bool → Bool → Bool
flag_matches none b = true
flag_matches (some v) b = same_bool v b

abbrev pub at_least : Option ℕ → ℕ → Bool
at_least none t = true
at_least (some since) t = leb since t

-- `created_at >= now - seconds`, written without the subtraction.
abbrev pub fresh_within : ℕ → Option ℕ → ℕ → Bool
fresh_within now none t = true
fresh_within now (some seconds) t = leb now (t + seconds)

abbrev pub same_status : EntryStatus → EntryStatus → Bool
same_status EntryStatus.active EntryStatus.active = true
same_status EntryStatus.expired EntryStatus.expired = true
same_status EntryStatus.superseded EntryStatus.superseded = true
same_status _ _ = false

abbrev pub status_matches : Option EntryStatus → EntryStatus → Bool
status_matches none st = true
status_matches (some want) st = same_status want st

abbrev pub type_number : EntryType → ℕ
type_number EntryType.metric = 0
type_number EntryType.decision = 1
type_number EntryType.flag = 2
type_number EntryType.fact = 3
type_number EntryType.claim = 4
type_number EntryType.plan_item = 5
type_number EntryType.context = 6
type_number EntryType.report = 7
type_number EntryType.distribution_draft = 8

abbrev pub same_type : EntryType → EntryType → Bool
same_type a b = type_number a == type_number b

-- An empty list of types is no condition.
abbrev pub type_matches : List EntryType → EntryType → Bool
type_matches [] t = true
type_matches (w ∷ ws) t = any (same_type t) (w ∷ ws)

-- Among rows of one age the order is the database's choice: here the older id comes first.
abbrev pub insert_newest : MemoryEntry → List MemoryEntry → List MemoryEntry
insert_newest e [] = e ∷ []
insert_newest e (x ∷ xs) =
    if leb x.created_at e.created_at then e ∷ x ∷ xs else x ∷ insert_newest e xs

abbrev pub newest_first : List MemoryEntry → List MemoryEntry
newest_first [] = []
newest_first (x ∷ xs) = insert_newest x (newest_first xs)

module _ (contains : Payload → Payload → Bool) where
  abbrev pub payload_matches : Option Payload → Payload → Bool
  payload_matches none p = true
  payload_matches (some part) p = contains p part

  unfoldable pub matches : ℕ → Query → MemoryEntry → Bool
  matches now q e =
      brand_matches q.brand q.include_portfolio e.brand
      && type_matches q.types e.type
      && text_matches q.source_agent e.source_agent
      && column_matches q.source_system e.source_system
      && flag_matches q.verified e.verified
      && status_matches q.status e.status
      && at_least q.since e.created_at
      && fresh_within now q.fresh_within_seconds e.created_at
      && payload_matches q.payload_contains e.payload

  unfoldable pub query : ℕ → Query → Memory → List MemoryEntry
  unfolding matches
  query now q m = take q.limit (newest_first (keep (matches now q) m.entries))

  abbrev head_of : List MemoryEntry → Option MemoryEntry
  head_of [] = none
  head_of (e ∷ es) = some e

  unfoldable pub latest : ℕ → String → EntryType → Option String → Memory → Option MemoryEntry
  unfolding query
  latest now brand type source_system m = head_of (
      query now
        (record {
          brand = some brand;
          include_portfolio = true;
          types = type ∷ [];
          source_agent = none;
          source_system = source_system;
          verified = none;
          since = none;
          fresh_within_seconds = none;
          payload_contains = none;
          status = some EntryStatus.active;
          limit = 1;
        })
        m)
