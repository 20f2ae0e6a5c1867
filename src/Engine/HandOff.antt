-- ===== src/Engine/HandOff.antt =====
-- The hand-off of `publish_job` writes no row, so it keeps to every order of the sessions.
use adam_abundance.Base.{
  String, Bool, true, false, not, ◌&&◌, leb, str_eq, Option, none, some, inl, inr, Bool-cases,
}
use adam_abundance.Base.Along.{Preorder, Keeps, Keeps-bind, Keeps-pure}
use adam_abundance.Trends.Lifecycle.{LifecycleError}
use adam_abundance.Trends.Rows.{Pipeline, Job}
use adam_abundance.Engine.Session.{Session, or_refuse}
use adam_abundance.Engine.World.{World}
use adam_abundance.Engine.Publish.{is_given, pushed, crash_if, emaki_push, topic, hand_off}
use adam_abundance.Engine.Lawful.{Keeps-refuse_if}

module _ {R : Session → Session → Type 0} (p : Preorder R) where
  pushed-Keeps : (a : Option String) → Keeps R (pushed a)
  pushed-Keeps none = record { along = p.same }
  pushed-Keeps (some a) = record { along = p.same }

  crash_if-Keeps : (b : Bool) (e : String) → Keeps R (crash_if b e)
  crash_if-Keeps true e = record { along = p.same }
  crash_if-Keeps false e = record { along = p.same }

  pub or_refuse-Keeps : {A : Type 0} (a : Option A) (e : LifecycleError) → Keeps R (or_refuse a e)
  or_refuse-Keeps none e = record { along = p.same }
  or_refuse-Keeps (some a) e = record { along = p.same }

  module _ (w : World) where
    emaki_push-Keeps : (brand : String) (t : Option String) → Keeps R (emaki_push w brand t)
    unfolding emaki_push
    emaki_push-Keeps brand t = Keeps-bind p (Keeps-refuse_if p _ _) λ _.
        Keeps-bind p (crash_if-Keeps (not w.emaki.login) "login failed") λ _.
          Keeps-bind p (Keeps-refuse_if p (leb 400 (w.emaki.active_brand brand)) _)
            λ _. pushed-Keeps _

    pub hand_off-Keeps : (pl : Pipeline) (j : Job) → Keeps R (hand_off w pl j)
    unfolding hand_off
    hand_off-Keeps pl j =
        elim (Bool-cases (str_eq j.transport "hc_viral_hits" && is_given (topic w j))) [
          | inl b ↦ rw b (emaki_push-Keeps pl.brand (topic w j))
          | inr b ↦ rw b (Keeps-pure p "manual_handoff")
        ]
