-- ===== src/Memory/Types.antt =====
-- db/enums.py, interfaces.py and the row of `memory_entry`: what an agent hands to the memory and
-- what is kept. A time is a number of seconds; a confidence is in hundredths.
use adam_abundance.Base.{ℕ, ◌*◌, String, Bool, Option, none, some, List}
use adam_abundance.Base.Table.{Keyed}

pub data EntryType : Type 0 where
  metric decision flag fact claim plan_item context report distribution_draft : EntryType

pub data EntryStatus : Type 0 where
  active expired superseded : EntryStatus

-- A value of a JSON object; `spelled` is a text by its code points. Lists and objects inside one
-- have types of their own.
mutual
  pub data Value : Type 0 where
    null : Value
    text : String → Value
    spelled : List ℕ → Value
    num : ℕ → Value
    bool : Bool → Value
    list : Elements → Value
    object : Fields → Value

  pub data Elements : Type 0 where
    no_elements : Elements
    element : Value → Elements → Elements

  pub data Fields : Type 0 where
    no_fields : Fields
    field : String → Value → Fields → Fields

abbrev pub Payload : Type 0
Payload = List (String × Value)

pub record EntryDraft : Type 0 where
  pub type : EntryType
  pub brand : String
  pub source_agent : String
  pub source_system : Option String
  pub payload : Payload
  pub verified : Bool
  pub confidence : Option ℕ
  pub source_urls : Option (List String)
  pub expires_at : Option ℕ
  pub ttl_seconds : Option ℕ
  pub status : Option EntryStatus

pub record MemoryEntry : Type 0 where
  pub id : ℕ
  pub type : EntryType
  pub brand : String
  pub source_agent : String
  pub source_system : Option String
  pub payload : Payload
  pub verified : Bool
  pub confidence : Option ℕ
  pub source_urls : Option (List String)
  pub created_at : ℕ
  pub expires_at : Option ℕ
  pub status : EntryStatus

instance abbrev pub entry_keyed : Keyed MemoryEntry
entry_keyed = record { key = λ e. e.id }

-- The table and the next value of its id sequence.
pub record Memory : Type 0 where
  pub entries : List MemoryEntry
  pub next_id : ℕ

abbrev day : ℕ
day = 24 * 3600

-- `_DEFAULT_TTLS` of config.py.
unfoldable pub default_ttl : EntryType → Option ℕ
default_ttl EntryType.metric = some (3 * day)
default_ttl EntryType.flag = some (7 * day)
default_ttl EntryType.context = some (2 * day)
default_ttl EntryType.claim = some (14 * day)
default_ttl EntryType.fact = none
default_ttl EntryType.decision = none
default_ttl EntryType.plan_item = some (30 * day)
default_ttl EntryType.report = some (14 * day)
default_ttl EntryType.distribution_draft = some (14 * day)
