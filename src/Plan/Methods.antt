-- ===== src/Plan/Methods.antt =====
-- The tools of `PlanService` in src/mcp/plan-server.ts that read or write plan.json. Writers run
-- one at a time through `opQueue`, so a method is a function from the state before to that after.
use saivage.Base.{
  ℕ, zero, suc, String, Bool, true, false, not, ◌||◌, Option, none, some, List, [], ◌∷◌, ◌++◌, all,
  find?, length, is_blank, contains_text, if◌then◌else◌, ◌==◌,
}
use saivage.Plan.Document.{Stage, StageResult, Escalation, CompletedStage, PlanDocument, stage_ok}
use saivage.Plan.Reply.{
  plan_not_found, stage_not_found, stage_exists, validation_error, io_error, invalid_document, done,
  refused, Method, pure, refuse, throw, try_catch, require, ◌>>=◌, ◌>>◌,
}
use saivage.Plan.Service.{
  GitReply, committed, rejected, Env, Archival, Completion, Service, ActivePlanView, active_view,
  history_view, preserve_started_at, has_stage, has_completed, find_stage, remove_stage,
  clear_current, stamp_current, names_stage, get_doc, write_doc, save,
}

unfoldable pub plan_get : Method Service ActivePlanView
plan_get = do doc ← get_doc; pure (active_view doc)

-- The answer of `plan_get_stage` says by `source` where the stage stands.
pub data FoundStage : Type 0 where
  active : Stage → FoundStage
  past : CompletedStage → FoundStage

abbrev find_completed : String → List CompletedStage → Option CompletedStage
find_completed id = find? (λ s. s.id == id)

abbrev found_stage : Option Stage → Option CompletedStage → Method Service FoundStage
found_stage (some s) _ = pure (active s)
found_stage none (some c) = pure (past c)
found_stage none none = refuse stage_not_found

unfoldable pub plan_get_stage : String → Method Service FoundStage
plan_get_stage id = do
  doc ← get_doc
  found_stage (find_stage id doc.stages) (find_completed id (history_view doc none))

abbrev find_current : Option String → List Stage → Option Stage
find_current none stages = none
find_current (some id) stages = if id == "" then none else find_stage id stages

unfoldable pub plan_get_current_stage : Method Service (Option Stage)
plan_get_current_stage = do doc ← get_doc; pure (find_current doc.current_stage_id doc.stages)

-- the body of the `try` block
abbrev set_stages : Env → List Stage → Option String → PlanDocument → Method Service ActivePlanView
set_stages env stages current doc =
    if not (all stage_ok stages)
    then throw invalid_document
    else if not (names_stage current stages)
    then refuse stage_not_found
    else save env (record {
      updated_at = env.now;
      current_stage_id = current;
      stages = stamp_current env current (preserve_started_at stages doc.stages);
      history = doc.history;
    })

unfoldable pub plan_set_stages : Env → List Stage → Option String → Method Service ActivePlanView
plan_set_stages env stages current = do doc ← get_doc; try_catch (set_stages env stages current doc)

unfoldable pub plan_add_stage : Env → Stage → Method Service ActivePlanView
plan_add_stage env stage = do
  doc ← get_doc
  if has_stage stage.id doc.stages || has_completed stage.id doc.history
      then refuse stage_exists
      else if not (stage_ok stage)
      then refuse validation_error
      else save env (record doc { stages = doc.stages ++ stage ∷ []; updated_at = env.now })

unfoldable pub plan_remove_stage : Env → String → Method Service ActivePlanView
plan_remove_stage env id = do
  doc ← get_doc
  if not (has_stage id doc.stages)
      then refuse stage_not_found
      else save env (record doc {
        updated_at = env.now;
        current_stage_id = clear_current id doc.current_stage_id;
        stages = remove_stage id doc.stages;
      })

unfoldable pub plan_set_current : Env → Option String → Method Service ActivePlanView
plan_set_current env current = do
  doc ← get_doc
  if not (names_stage current doc.stages)
      then refuse stage_not_found
      else save env (record doc {
        updated_at = env.now;
        current_stage_id = current;
        stages = stamp_current env current doc.stages;
      })

pub record CompleteArgs : Type 0 where
  pub stage_id : String
  pub result : StageResult
  pub summary : String
  pub actual_outcomes : List String
  pub escalation : Option Escalation
  pub abort_reason : Option String

abbrev pub complete : Env → CompleteArgs → Stage → String → CompletedStage
complete env args stage started = record {
  id = stage.id;
  objective = stage.objective;
  expected_outcomes = stage.expected_outcomes;
  actual_outcomes = args.actual_outcomes;
  started_at = started;
  completed_at = env.now;
  result = args.result;
  summary = args.summary;
  escalation = args.escalation;
  abort_reason = args.abort_reason;
}

-- the document after the stage has moved to the history
abbrev pub completed_doc : Env → CompleteArgs → CompletedStage → PlanDocument → PlanDocument
completed_doc env args c doc = record {
  updated_at = env.now;
  current_stage_id = clear_current args.stage_id doc.current_stage_id;
  stages = remove_stage args.stage_id doc.stages;
  history = doc.history ++ c ∷ [];
}

-- `archiveStage`, and `markStageCompleted` where a store is configured; both failures are logged
close_stage : Env → CompleteArgs → Stage → Method Service (Unit {0})
close_stage env args stage s =
    let archival : Archival = record { stage_id = stage.id; returned = env.archive_ok } in
    let mark : Completion = record {
      stage_id = stage.id;
      result = args.result;
      archived = env.archive_ok;
      at = env.now;
    } in
    (
      done tt,
      record s {
        archives = s.archives ++ archival ∷ [];
        completions = if s.has_stage_runs then s.completions ++ mark ∷ [] else s.completions;
      },
    )

-- `!stage.started_at`
abbrev pub started : Option String → Option String
started none = none
started (some t) = if t == "" then none else some t

unfoldable pub plan_complete_stage :
    Env → CompleteArgs → Method Service (CompletedStage × ActivePlanView)
unfolding close_stage
plan_complete_stage env args = do
  doc ← get_doc
  stage ← require (find_stage args.stage_id doc.stages) stage_not_found
  begun ← require (started stage.started_at) validation_error
  let c = complete env args stage begun
  let next = completed_doc env args c doc
  write_doc env next
  close_stage env args stage
  pure (c, active_view next)

-- Not a tool: the offline backfill calls it.
unfoldable pub plan_append_history : Env → CompletedStage → Method Service ℕ
plan_append_history env c = do
  doc ← get_doc
  if has_stage c.id doc.stages
      then refuse stage_exists
      else if has_completed c.id doc.history
      then refuse stage_exists
      else do
        write_doc env (record doc { history = doc.history ++ c ∷ []; updated_at = env.now })
        pure (length (doc.history ++ c ∷ []))

-- `lastN !== undefined && lastN > 0`
abbrev positive : Option ℕ → Option ℕ
positive none = none
positive (some zero) = none
positive (some (suc n)) = some (suc n)

unfoldable pub plan_get_history : Option ℕ → Method Service (List CompletedStage)
unfolding history_view
plan_get_history last_n = do doc ← get_doc; pure (history_view doc (positive last_n))

unfoldable pub plan_init : Env → List Stage → Method Service ActivePlanView
plan_init env stages s = elim s.doc [
  | some d ↦ refuse stage_exists s
  | none ↦
      if not (all stage_ok stages)
      then refuse validation_error s
      else save env
          (record { updated_at = env.now; current_stage_id = none; stages = stages; history = [] })
          s
]

pub record CommitAnswer : Type 0 where
  pub sha : String
  pub noop : Bool

abbrev same_sha : Option String → String → Bool
same_sha none sha = false
same_sha (some last) sha = sha == last

abbrev last_or_unknown : Option String → String
last_or_unknown none = "unknown"
last_or_unknown (some sha) = sha

abbrev commit_reply : GitReply → Method Service CommitAnswer
commit_reply (committed sha) s =
    if same_sha s.last_commit_sha sha
    then (done (record { sha = sha; noop = true }), s)
    else (done (record { sha = sha; noop = false }), record s { last_commit_sha = some sha })
commit_reply (rejected msg) s =
    if contains_text msg "nothing to commit" || contains_text msg "no changes"
    then (done (record { sha = last_or_unknown s.last_commit_sha; noop = true }), s)
    else (refused io_error, s)

abbrev file_exists : Option PlanDocument → Bool
file_exists none = false
file_exists (some d) = true

unfoldable pub plan_commit : Env → Method Service CommitAnswer
plan_commit env s =
    if not s.has_git
    then refuse io_error s
    else if not (file_exists s.disk)
    then refuse plan_not_found s
    else commit_reply env.git s

unfoldable pub plan_done : String → Method Service (Unit {0})
plan_done reason = if is_blank reason then refuse validation_error else pure tt
