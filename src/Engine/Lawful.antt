-- ===== src/Engine/Lawful.antt =====
-- The actions of the engine keep to what the repository's methods keep to: rows stay, and statuses
-- move along the tables (Trends/Lawful).
use mathlib.Core.Path.{subst}
use adam_abundance.Base.{
  ℕ, ◌≡◌, refl, sym, Bool, true, false, inl, inr, Bool-cases, Option-cases, Result, ok, err, Exec,
}
use adam_abundance.Base.Along.{Preorder, Along, Keeps}
use adam_abundance.Base.Table.{find}
use adam_abundance.Memory.Types.{Memory}
use adam_abundance.Memory.Store.{StoreError}
use adam_abundance.Trends.Lifecycle.{LifecycleError, TrendStatus, trend_may}
use adam_abundance.Trends.Rows.{Db, trend_keyed}
use adam_abundance.Trends.TrendRepo.{set_status as set_trend_status}
use adam_abundance.Trends.Lawful.{Lawful, Lawful-Preorder}
use adam_abundance.Engine.Session.{
  Session, EngineError, Act, on_result, on_db, on_rows, on_stored, on_memory, refuse_if, commit,
  transaction, best_effort,
}

-- A relation of the trend tables, of the sessions that hold them.
abbrev pub Within : (Db → Db → Type 0) → Session → Session → Type 0
Within R s s' = R s.db s'.db

pub Within-Preorder : {R : Db → Db → Type 0} → Preorder R → Preorder (Within R)
Within-Preorder p = record { same = λ s. p.same s.db; then = λ a b c. p.then a.db b.db c.db }

abbrev pub LawfulSession : Session → Session → Type 0
LawfulSession = Within Lawful

pub LawfulSession-Preorder : Preorder LawfulSession
LawfulSession-Preorder = Within-Preorder Lawful-Preorder

module _ {A : Type 0} where
  on_result-db : (s : Session) (r : Result LifecycleError A) (d : Db) → (on_result s r d).1.db ≡ d
  on_result-db s (ok a) d = refl
  on_result-db s (err e) d = refl

  on_stored-db :
      (s : Session) (r : Result StoreError A) (m : Memory) → (on_stored s r m).1.db ≡ s.db
  on_stored-db s (ok a) m = refl
  on_stored-db s (err e) m = refl

  -- Such relations pass from a repository's method to the session.
  module _ (R : Db → Db → Type 0) where
    pub Keeps-on_db : (m : Exec Db LifecycleError A) → Along R m → Keeps (Within R) (on_db m)
    Keeps-on_db m h = record {
      along = λ s. subst (λ d. R s.db d) (sym (on_result-db s (m s.db).0 (m s.db).1)) (h s.db);
    }

    pub Keeps-on_memory :
        (p : Preorder R) (m : Exec Memory StoreError A) → Keeps (Within R) (on_memory m)
    Keeps-on_memory p m = record {
      along = λ s.
          subst (λ d. R s.db d)
            (sym (on_stored-db s (m s.governor.memory).0 (m s.governor.memory).1)) (p.same s.db);
    }

    pub Keeps-on_rows : (f : Db → A × Db) → ((d : Db) → R d (f d).1) → Keeps (Within R) (on_rows f)
    Keeps-on_rows f h = record { along = λ s. h s.db }

  module _ {R : Session → Session → Type 0} (p : Preorder R) where
    commit-Along :
        (s : Session) (r : Result EngineError A) (s' : Session) → R s s' → R s (commit s r s').1
    commit-Along s (ok a) s' h = h
    commit-Along s (err e) s' h = p.same s

    pub Keeps-transaction : {m : Act A} → Keeps R m → Keeps R (transaction m)
    unfolding transaction
    Keeps-transaction {m} h = record { along = λ s. commit-Along s (m s).0 (m s).1 (h.along s) }

    pub Keeps-best_effort : (m : Act A) → Keeps R m → Keeps R (best_effort m)
    Keeps-best_effort m h = record { along = h.along }

pub set_trend_status-Lawful :
    (now i : ℕ) (status : TrendStatus) (s : Db) → Lawful s (set_trend_status now i status s).1
unfolding set_trend_status
set_trend_status-Lawful now i status s = elim (Option-cases (find i s.trends)) [
  | inl e ↦ rw e (Lawful-Preorder.same s)
  | inr (t, e) ↦ elim (Bool-cases (trend_may t.status status)) [
    | inl m ↦ rw (e, m) (Lawful-Preorder.same s)
    | inr m ↦ rw (e, m) (Lawful-Preorder.same s)
  ]
]

module _ {R : Session → Session → Type 0} (p : Preorder R) where
  pub Keeps-refuse_if : (b : Bool) (e : LifecycleError) → Keeps R (refuse_if b e)
  Keeps-refuse_if true e = record { along = p.same }
  Keeps-refuse_if false e = record { along = p.same }
