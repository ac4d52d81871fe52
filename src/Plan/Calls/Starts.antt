-- ===== src/Plan/Calls/Starts.antt =====
-- How `plan_set_stages` carries the starts of stages over: `preserveStartedAt` of src/mcp/plan-server.ts.
use mathlib.Core.Option
use saivage.Base.{
  String, ◌≡◌, refl, ap, ◌∙◌, true, false, Option, none, some, List, [], ◌∷◌, arith, eq_iff,
  Distinct, elem,
}
use saivage.Plan.Document.{Stage, PlanDocument, stage_ids}
use saivage.Plan.Document.Valid.{document_ok_iff}
use saivage.Plan.Service.{
  Env, Service, find_stage, stamp_stage, stamp_current, stamp_started, find_last,
  preserve_started_at, preserve_one,
}
use saivage.Plan.Methods.{started}
use saivage.Plan.Calls.{set_stages, call, methods}
use saivage.Plan.Calls.Safety.{IsReady, returned, held_ok}
use saivage.Plan.Calls.History.{held_stages}

find_last-none :
    (id : String) (ss : List Stage) → elem id (stage_ids ss) ≡ false → find_last id ss ≡ none
unfolding find_last
find_last-none id [] h = refl
find_last-none id (s ∷ ss) h = ground (arith, find_last-none id ss)

find_last-eq-find_stage :
    (id : String) (ss : List Stage) → Distinct (stage_ids ss) → find_last id ss ≡ find_stage id ss
unfolding find_last
find_last-eq-find_stage id [] d = refl
find_last-eq-find_stage id (s ∷ ss) d =
    ground (arith, find_last-eq-find_stage id ss, find_last-none id ss, eq_iff s.id id)

preserve_one-id :
    (existing : List Stage) (stage : Stage) (t : Option String)
    → (preserve_one existing stage t).id ≡ stage.id
preserve_one-id existing stage (some t) = refl
preserve_one-id existing stage none = ground arith

find_stage-preserve_started_at :
    (id : String) (incoming existing : List Stage)
    → find_stage id (preserve_started_at incoming existing)
      ≡ Option.map (λ s. preserve_one existing s s.started_at) (find_stage id incoming)
unfolding preserve_started_at
find_stage-preserve_started_at id [] existing = refl
find_stage-preserve_started_at id (s ∷ ss) existing =
    ground (
      arith,
      find_stage-preserve_started_at id ss existing,
      preserve_one-id existing s s.started_at,
    )

find_stage-stamp_stage :
    (env : Env) (id x : String) (ss : List Stage) {k : Stage} {begun : String}
    → find_stage x ss ≡ some k
    → started k.started_at ≡ some begun
    → find_stage x (stamp_stage env id ss) ≡ some k
unfolding stamp_stage stamp_started
find_stage-stamp_stage env id x [] f b = cc
find_stage-stamp_stage env id x (s ∷ ss) {k} {begun} f b =
    ground (arith, find_stage-stamp_stage env id x ss {k = k} {begun = begun})

find_stage-stamp_current :
    (env : Env) (current : Option String) (x : String) (ss : List Stage) {k : Stage}
    {begun : String}
    → find_stage x ss ≡ some k
    → started k.started_at ≡ some begun
    → find_stage x (stamp_current env current ss) ≡ some k
find_stage-stamp_current env none x ss f b = f
find_stage-stamp_current env (some id) x ss f b = find_stage-stamp_stage env id x ss f b

abbrev pub with_start : Stage → String → Stage
with_start stage begun = record stage { started_at = some begun }

preserve_one_of_found :
    (existing : List Stage) (old new : Stage) (begun : String)
    → Distinct (stage_ids existing)
    → find_stage new.id existing ≡ some old
    → started old.started_at ≡ some begun
    → preserve_one existing new none ≡ with_start new begun
preserve_one_of_found existing old new begun d f b =
    ground (arith, find_last-eq-find_stage new.id existing d)

held_set_stages :
    (env : Env) (stages : List Stage) (current : Option String) (s : Service)
    → returned (call env (set_stages stages current) s).0 ≡ true
    → held_stages (call env (set_stages stages current) s).1.doc
      ≡ stamp_current env current (preserve_started_at stages (held_stages s.doc))
unfolding methods
held_set_stages env stages current s h = ground arith

started_again :
    (t : Option String) {begun : String}
    → started t ≡ some begun
    → started (some begun) ≡ some begun
started_again none h = cc
started_again (some t) h = ground arith

Distinct-held :
    (doc : Option PlanDocument) → held_ok doc ≡ true → Distinct (stage_ids (held_stages doc))
Distinct-held none ok = tt
Distinct-held (some d) ok = ((document_ok_iff d).0 ok).active

-- From a ready state, and where plan_set_stages returns: an active stage that has started, and that
-- is given again with no start of its own, keeps the time at which it started.
pub set_stages-start :
    (env : Env) (stages : List Stage) (current : Option String) (s : Service) (old new : Stage)
    (begun : String)
    → IsReady s
    → returned (call env (set_stages stages current) s).0 ≡ true
    → find_stage new.id (held_stages s.doc) ≡ some old
    → started old.started_at ≡ some begun
    → find_stage new.id stages ≡ some new
    → new.started_at ≡ none
    → find_stage new.id (held_stages (call env (set_stages stages current) s).1.doc)
      ≡ some (with_start new begun)
set_stages-start env stages current s old new begun r h f b g idle =
    let distinct = Distinct-held s.doc r.valid in
    let kept =
      find_stage-preserve_started_at new.id stages (held_stages s.doc)
      ∙ ap (Option.map (λ s'. preserve_one (held_stages s.doc) s' s'.started_at)) g
      ∙ ap some (ap (preserve_one (held_stages s.doc) new) idle)
      ∙ ap some (preserve_one_of_found (held_stages s.doc) old new begun distinct f b) in
    rw (held_set_stages env stages current s h) (
      find_stage-stamp_current env current new.id (preserve_started_at stages (held_stages s.doc))
        {begun = begun} kept (started_again old.started_at b))
