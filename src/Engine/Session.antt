-- ===== src/Engine/Session.antt =====
-- What the transaction of a `RunContext` (context.py) holds: the trend tables, the governor with
-- the memory, the personas and the cost tables; its actions and its end (`session_scope` of
-- db/base.py).
use adam_abundance.Base.{String, Bool, Option, none, some, List, Result, Exec, pure, raise}
use adam_abundance.Memory.Types.{Memory}
use adam_abundance.Memory.Store.{StoreError}
use adam_abundance.Governor.Budget.{Governor}
use adam_abundance.Trends.Lifecycle.{LifecycleError}
use adam_abundance.Trends.Rows.{Db}
use adam_abundance.Engine.Personas.{Personas}
use adam_abundance.Engine.Pay.{WriterPayBaseline, PipelineCost}

pub record Session : Type 0 where
  pub db : Db
  pub governor : Governor
  pub personas : Personas
  pub baselines : List WriterPayBaseline
  pub costs : List PipelineCost

-- What a worker or a request may end with: a `LifecycleError`, an error of the memory, or any
-- other exception.
pub data EngineError : Type 0 where
  lifecycle : LifecycleError → EngineError
  store_refused : StoreError → EngineError
  crashed : String → EngineError

abbrev pub Act : Type 0 → Type 0
Act A = Exec Session EngineError A

module _ {A : Type 0} where
  abbrev pub on_result : Session → Result LifecycleError A → Db → Result EngineError A × Session
  on_result s (Result.ok a) d = (Result.ok a, record s { db = d })
  on_result s (Result.err e) d = (Result.err (lifecycle e), record s { db = d })

  -- A repository's method, in the session.
  abbrev pub on_db : Exec Db LifecycleError A → Act A
  on_db m s = let (r, d) = m s.db in on_result s r d

  -- A repository's method that never raises.
  abbrev pub on_rows : (Db → A × Db) → Act A
  on_rows m s = let (a, d) = m s.db in (Result.ok a, record s { db = d })

  abbrev pub on_stored : Session → Result StoreError A → Memory → Result EngineError A × Session
  on_stored s (Result.ok a) m =
      (Result.ok a, record s { governor = record s.governor { memory = m } })
  on_stored s (Result.err e) m =
      (Result.err (store_refused e), record s { governor = record s.governor { memory = m } })

  -- A method of the memory, in the session.
  abbrev pub on_memory : Exec Memory StoreError A → Act A
  on_memory m s = let (r, mem) = m s.governor.memory in on_stored s r mem

  abbrev pub refuse : LifecycleError → Act A
  refuse e = raise (lifecycle e)

  abbrev pub or_refuse : Option A → LifecycleError → Act A
  or_refuse none e = refuse e
  or_refuse (some a) e = pure a

  abbrev pub commit : Session → Result EngineError A → Session → Result EngineError A × Session
  commit s (Result.ok a) s' = (Result.ok a, s')
  commit s (Result.err e) s' = (Result.err e, s)

  -- `session_scope`: a commit where the block returns, a roll-back where it raises.
  unfoldable pub transaction : Act A → Session → Result EngineError A × Session
  transaction m s = let (r, s') = m s in commit s r s'

  -- `try: … except Exception: log`. What was written before the raise stays in the session.
  abbrev pub best_effort : Act A → Act (Unit {0})
  best_effort m s = (Result.ok tt, (m s).1)

abbrev pub refuse_if : Bool → LifecycleError → Act (Unit {0})
refuse_if Bool.true e = refuse e
refuse_if Bool.false e = pure tt
