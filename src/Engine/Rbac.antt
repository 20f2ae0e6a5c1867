-- ===== src/Engine/Rbac.antt =====
-- Who may make an editor's request.
use adam_abundance.Base.{◌≡◌, refl, ap, false, Option, none, some, inl, inr, Bool-cases, ok}
use adam_abundance.Base.Table.{find}
use adam_abundance.Base.Text.{strip}
use adam_abundance.Trends.Lifecycle.{is_blank}
use adam_abundance.Trends.Rows.{Pipeline, pipeline_keyed, job_keyed}
use adam_abundance.Engine.Session.{Session, Act, commit, transaction}
use adam_abundance.Engine.World.{World}
use adam_abundance.Engine.Routes.{
  User, Answer, guarded, may_approve, pipeline_of_found, Request, approve_request, decline_request,
  close_request, review_request, regenerate_request, publish_request, handler, handle,
}

-- The pipeline that the request is about, as the session has it.
unfoldable pub target : Request → Session → Option Pipeline
target (approve_request i picked t) s = find i s.db.pipelines
target (decline_request i reason) s = find i s.db.pipelines
target (close_request i reason) s = find i s.db.pipelines
target (review_request i verdict) s = pipeline_of_found (find i s.db.jobs) s
target (regenerate_request i t) s = pipeline_of_found (find i s.db.jobs) s
target (publish_request i) s = pipeline_of_found (find i s.db.jobs) s

-- Every pipeline that the request may be about is of a brand that the user may not approve for.
abbrev pub Forbidden : User → Option Pipeline → Type 0
Forbidden u none = Unit
Forbidden u (some p) = may_approve u p.brand ≡ false

-- An answer that leaves the session as it was.
abbrev Left : Act Answer → Session → Type 0
Left m s = (a : Answer) × (m s ≡ (ok a, s))

guarded-Left :
    (u : User) (p : Option Pipeline) (m : Act Answer) (s : Session)
    → Forbidden u p
    → Left (guarded u p m) s
guarded-Left u none m s h = (Answer.not_found, refl)
guarded-Left u (some p) m s h = (Answer.forbidden, rw h refl)

handler-Left :
    (w : World) (u : User) (r : Request) (s : Session)
    → Forbidden u (target r s)
    → Left (handler w u r) s
unfolding handler target
handler-Left w u (approve_request i picked t) s h = guarded-Left u (find i s.db.pipelines) _ s h
handler-Left w u (decline_request i reason) s h = guarded-Left u (find i s.db.pipelines) _ s h
handler-Left w u (close_request i reason) s h = guarded-Left u (find i s.db.pipelines) _ s h
handler-Left w u (review_request i verdict) s h =
    guarded-Left u (pipeline_of_found (find i s.db.jobs) s) _ s h
handler-Left w u (regenerate_request i t) s h = elim (Bool-cases (is_blank (strip t))) [
  | inl b ↦ (Answer.nothing_asked, rw b refl)
  | inr b ↦ rw b (guarded-Left u (pipeline_of_found (find i s.db.jobs) s) _ s h)
]
handler-Left w u (publish_request i) s h =
    guarded-Left u (pipeline_of_found (find i s.db.jobs) s) _ s h

-- A request on a pipeline, or on a job of a pipeline, whose brand the user may not approve for
-- changes nothing, whichever of the six it is; neither does one on a pipeline that is not there.
pub handle-Forbidden :
    (w : World) (u : User) (r : Request) (s : Session)
    → Forbidden u (target r s)
    → (handle w u r s).1 ≡ s
unfolding handle transaction
handle-Forbidden w u r s h = let (a, e) = handler-Left w u r s h in ap (λ x. (commit s x.0 x.1).1) e
