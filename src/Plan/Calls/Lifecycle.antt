-- ===== src/Plan/Calls/Lifecycle.antt =====
-- `plan_set_current` and `plan_complete_stage` of src/mcp/plan-server.ts: a stage's way to the history.
use saivage.Base.{
  String, ◌≡◌, ◌≢◌, refl, ap, sym, ◌∙◌, true, not, ◌&&◌, Option, none, some, List, [], ◌∷◌, ◌++◌,
  arith, inl, inr, Option-cases, Bool-cases, ◌==◌, eq_iff, Distinct, if◌then◌else◌,
}
use mathlib.Core.Option
use saivage.Plan.Document.{Stage, StageResult, CompletedStage, PlanDocument, stage_ids, document_ok}
use saivage.Plan.Document.Valid.{document_ok_iff}
use saivage.Plan.Service.{
  Env, Service, has_stage, find_stage, stamp_stage, is_started, stamp_started, remove_stage,
  clear_current,
}
use saivage.Plan.Methods.{CompleteArgs, complete, started, plan_complete_stage}
use saivage.Plan.Edits.{has_stage-elem, elem-remove_stage, find_stage-id}
use saivage.Plan.Calls.{set_current, call, methods}
use saivage.Plan.Calls.Safety.{IsReady, call-IsReady, returned}
use saivage.Plan.Calls.Totality.{complete_ok, set_current_ok}
use saivage.Plan.Calls.History.{held_history, held_stages}

abbrev pub held_current : Option PlanDocument → Option String
held_current none = none
held_current (some d) = d.current_stage_id

-- The stage has left the active stages, the other ids are the same, and the history has one more
-- entry at its end, of the stage's id and start, and of the given result. `archiveStage` has been
-- called once more, with the outcome that `env` gives, and so has `markStageCompleted`, which is told
-- this outcome, if there is a store of stage runs.
pub record HasMoved (env : Env) (id begun : String) (result : StageResult) (a b : Service)
    : Type 0 where
  pub active :
      (x : String)
      → has_stage x (held_stages b.doc) ≡ (has_stage x (held_stages a.doc) && not (id == x))
  pub entry : CompletedStage
  pub past : held_history b.doc ≡ held_history a.doc ++ entry ∷ []
  pub same_id : entry.id ≡ id
  pub same_start : entry.started_at ≡ begun
  pub same_result : entry.result ≡ result
  pub not_current : held_current b.doc ≢ some id
  pub archived : b.archives ≡ a.archives ++ record { stage_id = id; returned = env.archive_ok } ∷ []
  pub marked : b.completions ≡ (
      if a.has_stage_runs
      then a.completions
        ++ record { stage_id = id; result = result; archived = env.archive_ok; at = env.now } ∷ []
      else a.completions)

has_stage-remove_stage :
    (id x : String) (ss : List Stage)
    → Distinct (stage_ids ss)
    → has_stage x (remove_stage id ss) ≡ (has_stage x ss && not (id == x))
has_stage-remove_stage id x ss d =
    has_stage-elem x (remove_stage id ss)
    ∙ elem-remove_stage id x ss d
    ∙ ap (λ b. b && not (id == x)) (sym (has_stage-elem x ss))

clear_current-ne : (id : String) (current : Option String) → clear_current id current ≢ some id
clear_current-ne id none h = cc
clear_current-ne id (some c) h = ground (arith, eq_iff c id)

module _ (env : Env) (args : CompleteArgs) (s : Service) (stage : Stage) (begun : String) where
  -- From a ready state whose active stages have one of the id that has started, and where the file
  -- system takes the write, plan_complete_stage returns, takes that stage alone off the active
  -- stages, appends an entry with its id, its start and the given result to the history, and
  -- leaves it current no more. It calls archiveStage once for the id, and goes on where that
  -- fails; and if there is a store of stage runs, it calls markStageCompleted once, with the
  -- result, the time and whether archiveStage returned.
  pub complete_stage-HasMoved :
      IsReady s
      → env.write_ok ≡ true
      → find_stage args.stage_id (held_stages s.doc) ≡ some stage
      → started stage.started_at ≡ some begun
      → (returned (plan_complete_stage env args s).0 ≡ true)
        × HasMoved env args.stage_id begun args.result s (plan_complete_stage env args s).1
  unfolding methods
  complete_stage-HasMoved r w found at = elim (Option-cases s.doc) [
    | inl e ↦ absurd (ground arith)
    | inr (d, e) ↦
        let found' : find_stage args.stage_id d.stages ≡ some stage = ground arith in
        let valid : document_ok d ≡ true = ground (arith, r.valid) in
        let kept = complete_ok d env args stage begun valid found' in
        let same = find_stage-id args.stage_id d.stages found' in
        (
          ground arith,
          record {
            active = λ x. ground (
              arith,
              has_stage-remove_stage args.stage_id x d.stages ((document_ok_iff d).0 valid).active,
            );
            entry = complete env args stage begun;
            past = ground arith;
            same_id = same;
            same_start = refl;
            same_result = refl;
            not_current = λ x. clear_current-ne args.stage_id d.current_stage_id (ground arith);
            archived = ground arith;
            marked = ground arith;
          },
        )
  ]

find_stage-stamp_stage :
    (env : Env) (id : String) (ss : List Stage)
    → find_stage id (stamp_stage env id ss) ≡ Option.map (stamp_started env) (find_stage id ss)
unfolding stamp_stage stamp_started
find_stage-stamp_stage env id [] = refl
find_stage-stamp_stage env id (s ∷ ss) = ground (arith, find_stage-stamp_stage env id ss)

find_stage_of_has_stage :
    (id : String) (ss : List Stage)
    → has_stage id ss ≡ true
    → (stage : Stage) × (find_stage id ss ≡ some stage)
find_stage_of_has_stage id [] h = cc
find_stage_of_has_stage id (s ∷ ss) h = elim (Bool-cases (s.id == id)) [
  | inl same ↦ (s, rw same)
  | inr other ↦ rw other (find_stage_of_has_stage id ss (ground arith))
]

started_of_is_started :
    (t : Option String) → is_started t ≡ true → (begun : String) × (started t ≡ some begun)
started_of_is_started none h = cc
started_of_is_started (some t) h = (t, ground arith)

started-stamp_started :
    (env : Env) (stage : Stage)
    → env.start_now ≢ ""
    → is_started (stamp_started env stage).started_at ≡ true
unfolding stamp_started
started-stamp_started env stage h = ground (arith, eq_iff env.start_now "")

set_current_effect :
    (env : Env) (id : String) (s : Service)
    → IsReady s
    → env.write_ok ≡ true
    → has_stage id (held_stages s.doc) ≡ true
    → (returned (call env (set_current (some id)) s).0 ≡ true)
      × (held_stages (call env (set_current (some id)) s).1.doc
          ≡ stamp_stage env id (held_stages s.doc))
unfolding methods
set_current_effect env id s r w h = elim (Option-cases s.doc) [
  | inl e ↦ absurd (ground arith)
  | inr (d, e) ↦
      let ok = set_current_ok d (ground (arith, r.valid)) env.now env (some id) in
      (ground (arith, ok), ground (arith, ok))
]

-- From a ready state with an active stage of the id, and where the file system takes both writes:
-- once plan_set_current has been called for it, with a clock that does not read "", both calls
-- return, and plan_complete_stage moves the stage to the history.
pub set_current-complete_stage :
    (env env' : Env) (args : CompleteArgs) (s : Service)
    → IsReady s
    → env.write_ok ≡ true
    → env'.write_ok ≡ true
    → env.start_now ≢ ""
    → has_stage args.stage_id (held_stages s.doc) ≡ true
    → (returned (call env (set_current (some args.stage_id)) s).0 ≡ true)
      × (returned
            (plan_complete_stage env' args (call env (set_current (some args.stage_id)) s).1).0
          ≡ true)
      × ((begun : String) × HasMoved env' args.stage_id begun args.result
            (call env (set_current (some args.stage_id)) s).1
            (plan_complete_stage env' args (call env (set_current (some args.stage_id)) s).1).1)
set_current-complete_stage env env' args s r w w' clock h =
    let (set, stamped) = set_current_effect env args.stage_id s r w h in
    let (stage, found) = find_stage_of_has_stage args.stage_id (held_stages s.doc) h in
    let now_found =
      ap (find_stage args.stage_id) stamped
      ∙ find_stage-stamp_stage env args.stage_id (held_stages s.doc)
      ∙ ap (Option.map (stamp_started env)) found in
    let (begun, at) =
      started_of_is_started (stamp_started env stage).started_at
        (started-stamp_started env stage clock) in
    let (ended, moved) =
      complete_stage-HasMoved env' args _ (stamp_started env stage) begun
        (call-IsReady env (set_current (some args.stage_id)) r) w' now_found at in
    (set, ended, (begun, moved))
