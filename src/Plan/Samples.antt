-- ===== src/Plan/Samples.antt =====
-- Runs of the plan's methods on small documents, and the theorems at such inputs.
use saivage.Base.{
  String, ◌≡◌, refl, ◌↔◌, true, false, Option, none, some, List, [], ◌∷◌, ◌++◌, utf16_length,
  ne_of_test,
}
use saivage.Plan.Document.{
  Stage, completed, failed, CompletedStage, PlanDocument, stage_ok, document_ok, document_issues,
  active_issues, history_issues, current_issues,
}
use saivage.Plan.Document.Valid.{IsValid, document_ok_iff}
use saivage.Plan.Reply.{Fault, thrown, refused, stage_exists}
use saivage.Plan.Service.{
  committed, Env, Service, stamp_stage, stamp_started, find_stage, has_stage, preserve_started_at,
}
use saivage.Plan.Methods.{CompleteArgs, plan_complete_stage}
use saivage.Plan.Calls.{
  PlanCall, add_stage, set_current, complete_stage, start, set_stages, remove_stage as remove, call,
  run, methods,
}
use saivage.Plan.Calls.Safety.{IsReady, run-IsReady, call_failed, returned}
use saivage.Plan.Calls.Totality.{Rejects, call-thrown_iff}
use saivage.Plan.Calls.History.{held_history, held_stages, run-history, run-retired}
use saivage.Plan.Calls.Lifecycle.{HasMoved, complete_stage-HasMoved, set_current-complete_stage}
use saivage.Plan.Calls.Starts.{with_start, set_stages-start}

abbrev env : Env
env = record {
  now = "2026-01-02T00:00:00Z";
  start_now = "2026-01-01T00:00:00Z";
  write_ok = true;
  archive_ok = true;
  git = committed "abc";
}

abbrev stage_of : String → Option String → Stage
stage_of id started_at = record {
  id = id;
  objective = "Build it";
  starting_points = [];
  expected_outcomes = "It runs" ∷ [];
  acceptance_criteria = "Tests pass" ∷ [];
  references = [];
  tags = [];
  started_at = started_at;
}

abbrev old_stage : CompletedStage
old_stage = record {
  id = "s0";
  objective = "Start";
  expected_outcomes = [];
  actual_outcomes = [];
  started_at = "2025-12-01T00:00:00Z";
  completed_at = "2025-12-02T00:00:00Z";
  result = completed;
  summary = "";
  escalation = none;
  abort_reason = none;
}

abbrev doc : PlanDocument
doc = record {
  updated_at = "2025-12-02T00:00:00Z";
  current_stage_id = some "s1";
  stages = stage_of "s1" (some "2025-12-03T00:00:00Z") ∷ stage_of "s2" none ∷ [];
  history = old_stage ∷ [];
}

abbrev service_of : Option PlanDocument → Service
service_of d = record {
  doc = d;
  disk = d;
  has_stage_runs = true;
  has_git = true;
  last_commit_sha = none;
  archives = [];
  completions = [];
}

abbrev args : String → CompleteArgs
args id = record {
  stage_id = id;
  result = failed;
  summary = "gave up";
  actual_outcomes = [];
  escalation = none;
  abort_reason = none;
}

doc_ok : document_ok doc ≡ true
unfolding document_ok document_issues stage_ok utf16_length active_issues history_issues
    current_issues
doc_ok = refl

ready : IsReady (service_of (some doc))
ready = record { coherent = refl; valid = doc_ok }

-- The id of a finished stage is refused for a new one.
reuse_refused :
    (call env (add_stage (stage_of "s0" none)) (service_of (some doc))).0 ≡ refused stage_exists
unfolding methods
reuse_refused = refl

document_ok_iff_example : (document_ok doc ≡ true) ↔ IsValid doc
document_ok_iff_example = document_ok_iff doc

abbrev calls : List (Env × PlanCall)
calls = (env, set_current (some "s2")) ∷ (env, complete_stage (args "s2")) ∷ (env, remove "s1") ∷ []

run-IsReady_example : IsReady (run calls (service_of (some doc)))
run-IsReady_example = run-IsReady calls (service_of (some doc)) ready

call_failed_example :
    ((call env (add_stage (stage_of "s0" none)) (service_of (some doc))).1.doc ≡ some doc)
    × ((call env (add_stage (stage_of "s0" none)) (service_of (some doc))).1.disk ≡ some doc)
unfolding methods
call_failed_example = call_failed env (add_stage (stage_of "s0" none)) (service_of (some doc)) refl

empty-IsReady : IsReady (service_of none)
empty-IsReady = record { coherent = refl; valid = refl }

call-thrown_iff_example :
    ((f : Fault) × ((call env
          (start (stage_of "a" none ∷ stage_of "a" none ∷ []))
          (service_of none)).0
        ≡ thrown f))
    ↔ Rejects (start (stage_of "a" none ∷ stage_of "a" none ∷ [])) (service_of none)
call-thrown_iff_example =
    call-thrown_iff env (start (stage_of "a" none ∷ stage_of "a" none ∷ [])) (service_of none)
      empty-IsReady refl

run-history_example :
    (more : List CompletedStage) × (held_history (run calls (service_of (some doc))).doc
      ≡ old_stage ∷ [] ++ more)
run-history_example = run-history calls (service_of (some doc))

run-retired_example : has_stage "s0" (held_stages (run calls (service_of (some doc))).doc) ≡ false
run-retired_example = run-retired calls (service_of (some doc)) "s0" ready refl

complete_stage-HasMoved_example :
    (returned (plan_complete_stage env (args "s1") (service_of (some doc))).0 ≡ true)
    × HasMoved env "s1" "2025-12-03T00:00:00Z" failed
        (service_of (some doc))
        (plan_complete_stage env (args "s1") (service_of (some doc))).1
complete_stage-HasMoved_example =
    complete_stage-HasMoved env (args "s1") (service_of (some doc))
      (stage_of "s1" (some "2025-12-03T00:00:00Z")) "2025-12-03T00:00:00Z" ready refl refl refl

set_current-complete_stage_example :
    (returned (call env (set_current (some "s2")) (service_of (some doc))).0 ≡ true)
    × (returned
          (plan_complete_stage env
            (args "s2")
            (call env (set_current (some "s2")) (service_of (some doc))).1).0
        ≡ true)
    × ((begun : String) × HasMoved env "s2" begun failed
          (call env (set_current (some "s2")) (service_of (some doc))).1
          (plan_complete_stage env
            (args "s2")
            (call env (set_current (some "s2")) (service_of (some doc))).1).1)
set_current-complete_stage_example =
    set_current-complete_stage env env (args "s2") (service_of (some doc)) ready refl refl
      (ne_of_test "2026-01-01T00:00:00Z" "" refl) refl

set_stages-start_example :
    find_stage "s1" (
      held_stages
        (call env (set_stages (stage_of "s1" none ∷ []) (some "s1")) (service_of (some doc))).1.doc)
    ≡ some (with_start (stage_of "s1" none) "2025-12-03T00:00:00Z")
unfolding methods stage_ok utf16_length document_ok document_issues active_issues history_issues
    current_issues preserve_started_at stamp_stage stamp_started
set_stages-start_example =
    set_stages-start env (stage_of "s1" none ∷ []) (some "s1") (service_of (some doc))
      (stage_of "s1" (some "2025-12-03T00:00:00Z")) (stage_of "s1" none) "2025-12-03T00:00:00Z"
      ready refl refl refl refl refl
