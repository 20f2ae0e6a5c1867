-- ===== src/Engine/World.antt =====
-- What the engine meets outside the session: the clock, the settings, the generators and services.
use adam_abundance.Base.{ℕ, String, Bool, Option, List, [], ◌∷◌, Result, if◌then◌else◌}
use adam_abundance.Base.Text.{same_codes}
use adam_abundance.Memory.Types.{EntryType}
use adam_abundance.Governor.Budget.{Governor}
use adam_abundance.Trends.Rows.{ContentType, Trend, Pipeline, Job}
use adam_abundance.Engine.Pay.{PreviewMeta}
use adam_abundance.Engine.Session.{EngineError}

-- `GenerationResult` of trends/generators.py; empty texts and objects are `none`.
pub record GenerationResult : Type 0 where
  pub ok : Bool
  pub pending : Bool
  pub preview_markdown : String
  pub preview_meta : String
  pub external_ref : Option String
  pub cost_micros : ℕ
  pub error : Option String

-- How a transport may raise: `AdapterUnavailable`, or anything else.
pub data Failure : Type 0 where
  unavailable : String → Failure
  broken : String → Failure

-- The Emaki service, at the time of the call: whether it accepts the login, the status with which
-- it answers the change of brand, and what it answers to the push of a topic.
pub record Emaki : Type 0 where
  pub base : String
  pub email : Option String
  pub password : Option String
  pub login : Bool
  pub active_brand : String → ℕ
  pub push : String → Option String

pub record World : Type 0 where
  pub now : ℕ
  pub kill_switch : Bool
  pub ttls : EntryType → Option ℕ
  pub transports : List (ContentType × String)
  pub transport :
      String → Job → Pipeline → Trend → Governor → Result Failure GenerationResult × Governor
  pub put_text : Pipeline → Job → String → Option String
  pub read_meta : String → PreviewMeta
  pub topic_of : String → Option String
  pub emaki : Emaki
  pub message : EngineError → String

-- `TrendSettings.transport_for` of config.py
unfoldable pub transport_for : List (ContentType × String) → ContentType → String
transport_for [] ct = "llm"
transport_for (t ∷ ts) ct = if same_codes t.0 ct then t.1 else transport_for ts ct
