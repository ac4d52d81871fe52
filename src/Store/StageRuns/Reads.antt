-- ===== src/Store/StageRuns/Reads.antt =====
-- The operations of `StageRunStore` that read: `getStageRun`, `listStageRuns` and `listCompletedRuns`.
use saivage.Base.{
  sort, ℕ, String, Bool, Option, none, some, List, [], ◌∷◌, ◌++◌, map, filter, find?, elem, length,
  if◌then◌else◌, ◌==◌,
}
use saivage.Plan.Document.{Stage, CompletedStage, PlanDocument, document_ok}
use saivage.Store.EventLog.{Codec, read_events, of_stage}
use saivage.Store.Artifacts.{TaskList, task_list_ok, TaskReport, task_report_ok, stage_summary_ok}
use saivage.Store.StageRuns.Runs.{
  StageRun, StageRunSummary, Orders, stage_run, is_completed_status, text_or, is_unknown,
}
use saivage.Store.StageRuns.{Stored, missing, damaged, present, Disk}

-- a read that may throw
infixl 10 ◌>>=◌
abbrev pub ◌>>=◌ : {A B : Type 0} → Option A → (A → Option B) → Option B
none >>= f = none
some a >>= f = f a

-- `readDocOrNull`
unfoldable pub read_doc : {A : Type 0} → (A → Bool) → Stored A → Option (Option A)
read_doc ok missing = some none
read_doc ok damaged = none
read_doc ok (present a) = if ok a then some (some a) else none

-- `readPlanStage`
unfoldable pub find_definition : String → Option PlanDocument → Option Stage
find_definition id none = none
find_definition id (some plan) = find? (λ s. s.id == id) plan.stages

unfoldable pub find_completion : String → Option PlanDocument → Option CompletedStage
find_completion id none = none
find_completion id (some plan) = find? (λ s. s.id == id) plan.history

abbrev pub keep_some : {A : Type 0} → Option A → List A → List A
keep_some none xs = xs
keep_some (some x) xs = x ∷ xs

-- `readTaskReports`
unfoldable pub read_task_reports : List (String × Stored TaskReport) → Option (List TaskReport)
unfolding read_doc
read_task_reports [] = some []
read_task_reports ((task_id, file) ∷ files) = do
  report ← read_doc task_report_ok file
  more ← read_task_reports files
  some (keep_some report more)

abbrev add_all : List String → List String → List String
add_all ids [] = ids
add_all ids (x ∷ xs) = add_all (if elem x ids then ids else ids ++ x ∷ []) xs

abbrev plan_ids : Option PlanDocument → List String
plan_ids none = []
plan_ids (some plan) = map (λ s. s.id) plan.stages ++ map (λ s. s.id) plan.history

abbrev count_tasks : Option TaskList → ℕ
count_tasks none = 0
count_tasks (some list) = length list.tasks

abbrev summarize : StageRun → StageRunSummary
summarize run = record {
  stage_id = run.stage_id;
  status = run.status;
  task_count = count_tasks run.tasks;
  report_count = length run.reports;
  updated_at = run.updated_at;
}

module _ {Text : Type 0} (codec : Codec Text) (orders : Orders) where
  -- `getStageRun`: it throws, or gives null or a run
  unfoldable pub get_stage_run : String → Disk Text → Option (Option StageRun)
  unfolding find_definition find_completion read_doc read_task_reports of_stage stage_run
  get_stage_run id disk = do
    plan ← read_doc document_ok disk.plan
    tasks ← read_doc task_list_ok (disk.tasks id)
    summary ← read_doc stage_summary_ok (disk.summaries id)
    all_events ← read_events codec disk.log
    reports ← read_task_reports (disk.reports id)
    let definition = find_definition id plan
    let completed = find_completion id plan
    let events = of_stage id all_events
    some (
        if is_unknown definition completed tasks summary reports events
        then none
        else some (stage_run orders id definition completed tasks summary events reports))

  -- `listKnownStageIds`
  unfoldable pub list_known_stage_ids : Disk Text → Option (List String)
  unfolding read_doc
  list_known_stage_ids disk = do
    plan ← read_doc document_ok disk.plan
    events ← read_events codec disk.log
    some (add_all [] (plan_ids plan ++ (map (λ e. e.stage_id) events ++ disk.stage_dirs)))

  unfoldable pub get_stage_runs : List String → Disk Text → Option (List StageRun)
  unfolding get_stage_run
  get_stage_runs [] disk = some []
  get_stage_runs (id ∷ ids) disk = do
    run ← get_stage_run id disk
    runs ← get_stage_runs ids disk
    some (keep_some run runs)

  -- `listStageRuns`
  unfoldable pub list_stage_runs : Disk Text → Option (List StageRunSummary)
  unfolding list_known_stage_ids get_stage_runs
  list_stage_runs disk = do
    ids ← list_known_stage_ids disk
    runs ← get_stage_runs ids disk
    some (map summarize runs)

  -- `listCompletedRuns`
  unfoldable pub list_completed_runs : Disk Text → Option (List StageRun)
  unfolding list_known_stage_ids get_stage_runs is_completed_status sort
  list_completed_runs disk = do
    ids ← list_known_stage_ids disk
    runs ← get_stage_runs ids disk
    some (
        sort
          (λ a b.
            orders.locale (text_or a.completed_at a.updated_at)
              (text_or b.completed_at b.updated_at))
          (filter (λ run. is_completed_status run.status) runs))
