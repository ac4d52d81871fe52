-- ===== src/Mcp/StageTools.antt =====
-- The tools of `PlanService` in src/mcp/plan-server.ts that write the artifacts of a stage: `stage_write_tasks`,
-- `task_write_report` and `stage_write_summary`, over `StageRunStore`.
pub mod Handlers
pub mod Delivered
use saivage.Base.{
  ℕ, String, Bool, true, false, not, Option, none, some, List, [], ◌∷◌, elem, if◌then◌else◌, ◌==◌,
  utf16_length, is_blank,
}
use saivage.Plan.Document.{StageResult, Escalation}
use saivage.Plan.Reply.{PlanErrorCode, validation_error, io_error}
use saivage.Store.Artifacts.{
  ℤ, difference, worker_roles, Task, TaskList, task_list_ok, ChecklistResult, TestResult, Issue,
  ReportStatus, TaskReport, task_report_ok, StageSummary, stage_summary_ok,
}
use saivage.Store.EventLog.{Codec}
use saivage.Store.StageRuns.{
  Disk, WriteEnv, WriteOpts, write_task_list, write_task_report, write_stage_summary,
}
use saivage.Store.StageRuns.Reads.{read_doc, get_stage_run}
use saivage.Store.StageRuns.Runs.{◌or_else◌}

-- `ToolCallContext`, as far as these tools read it
pub record CallContext : Type 0 where
  pub role : String
  pub agent_id : String
  pub stage_id : Option String

-- `ArtifactWriteTiming`
pub record Timing : Type 0 where
  pub started_at : String
  pub start_ms : ℕ

-- `ArtifactExecutionContext`
pub record ArtifactContext : Type 0 where
  pub stage_id : Option String
  pub task_id : Option String
  pub timing : Option Timing

-- `PlanToolCallOptions`
pub record CallOptions : Type 0 where
  pub ctx : Option CallContext
  pub artifact : Option ArtifactContext
  pub agent_id : Option String

-- `TaskListInputSchema`
pub record TaskListInput : Type 0 where
  pub stage_id : Option String
  pub tasks : List Task

-- `TaskReportInputSchema`
pub record TaskReportInput : Type 0 where
  pub status : ReportStatus
  pub summary : String
  pub checklist_results : List ChecklistResult
  pub files_modified : List String
  pub files_created : List String
  pub tests_added : List String
  pub tests_run : List TestResult
  pub commits : List String
  pub issues_found : List Issue
  pub output_truncated : Option Bool
  pub failure_reason : Option String

-- `EscalationInputSchema`
pub record EscalationInput : Type 0 where
  pub stage_id : Option String
  pub task_id : Option String
  pub reason : String
  pub attempted_remediations : List String
  pub suggested_action : Option String

-- `StageSummaryInputSchema`
pub record StageSummaryInput : Type 0 where
  pub stage_id : Option String
  pub result : StageResult
  pub summary : String
  pub tasks_completed : ℕ
  pub tasks_failed : ℕ
  pub total_tasks : ℕ
  pub outcomes_achieved : List String
  pub outcomes_missed : List String
  pub issues : List Issue
  pub escalation : Option EscalationInput
  pub abort_reason : Option String

-- what the two schemas read in `args.report`, an untyped value: none where they refuse it
pub record ReportArgs : Type 0 where
  pub input : Option TaskReportInput
  pub canonical : Option TaskReport

-- and in `args.summary`
pub record SummaryArgs : Type 0 where
  pub input : Option StageSummaryInput
  pub canonical : Option StageSummary

-- `new Date().toISOString()` and `Date.now()`
pub record Clock : Type 0 where
  pub now : String
  pub now_ms : ℕ

-- the stage and the task whose artifact has been written, which the path in the answer names, or an error
pub data ToolAnswer : Type 0 where
  wrote : String → Option String → ToolAnswer
  failed : PlanErrorCode → ToolAnswer

abbrev pub chosen : {A B : Type 0} → (A → Option B) → Option A → Option B
chosen f none = none
chosen f (some a) = f a

-- `agentIdFromOpts`
unfoldable pub agent_id_from_opts : CallOptions → Option String
agent_id_from_opts opts = chosen (λ c. some c.agent_id) opts.ctx or_else opts.agent_id

-- `isWorkerRole`
unfoldable pub is_worker_role : Option String → Bool
unfolding worker_roles
is_worker_role none = false
is_worker_role (some role) = elem role worker_roles

pub record RunTiming : Type 0 where
  pub started_at : String
  pub completed_at : String
  pub duration_ms : ℤ

-- `runtimeTiming`; none for the error object
unfoldable pub runtime_timing : Clock → CallOptions → Option RunTiming → Option RunTiming
unfolding difference
runtime_timing clock opts canonical = elim (chosen (λ a. a.timing) opts.artifact) [
  | some timing ↦ some (record {
    started_at = timing.started_at;
    completed_at = clock.now;
    duration_ms = difference clock.now_ms timing.start_ms;
  })
  | none ↦ canonical
]

-- an id that is absent or the empty text is none
abbrev pub truthy : Option String → Option String
truthy none = none
truthy (some text) = if text == "" then none else some text

-- the value is there, or the call ends with VALIDATION_ERROR
abbrev pub need : {A D : Type 0} → Option A → (A → D → ToolAnswer × D) → D → ToolAnswer × D
need none f disk = (failed validation_error, disk)
need (some a) f disk = f a disk

-- the answer after a write of the store, whose exceptions `catch` turns into VALIDATION_ERROR
abbrev pub answer : {D : Type 0} → String → Option String → Bool × D → ToolAnswer × D
answer stage task (true, disk) = (wrote stage task, disk)
answer stage task (false, disk) = (failed validation_error, disk)

abbrev or_text : Option String → String → String
or_text none fallback = fallback
or_text (some text) fallback = text

abbrev pub report_of : TaskReportInput → String → String → String → RunTiming → TaskReport
report_of input task_id stage_id agent timing = record {
  task_id = task_id;
  stage_id = stage_id;
  agent = agent;
  status = input.status;
  summary = input.summary;
  checklist_results = input.checklist_results;
  files_modified = input.files_modified;
  files_created = input.files_created;
  tests_added = input.tests_added;
  tests_run = input.tests_run;
  commits = input.commits;
  issues_found = input.issues_found;
  output_truncated = input.output_truncated;
  failure_reason = input.failure_reason;
  started_at = timing.started_at;
  completed_at = timing.completed_at;
  duration_ms = timing.duration_ms;
}

abbrev pub report_timing : TaskReport → RunTiming
report_timing r = record {
  started_at = r.started_at;
  completed_at = r.completed_at;
  duration_ms = r.duration_ms;
}

abbrev pub summary_timing : StageSummary → RunTiming
summary_timing s = record {
  started_at = s.started_at;
  completed_at = s.completed_at;
  duration_ms = s.duration_ms;
}

abbrev pub escalation_of : String → String → EscalationInput → Escalation
escalation_of stage_id now e = record {
  stage_id = or_text e.stage_id stage_id;
  task_id = e.task_id;
  reason = e.reason;
  attempted_remediations = e.attempted_remediations;
  suggested_action = e.suggested_action;
  created_at = now;
}

abbrev pub summary_of : StageSummaryInput → String → RunTiming → StageSummary
summary_of input stage_id timing = record {
  stage_id = stage_id;
  result = input.result;
  summary = input.summary;
  tasks_completed = input.tasks_completed;
  tasks_failed = input.tasks_failed;
  total_tasks = input.total_tasks;
  outcomes_achieved = input.outcomes_achieved;
  outcomes_missed = input.outcomes_missed;
  issues = input.issues;
  escalation = chosen (λ e. some (escalation_of stage_id timing.completed_at e)) input.escalation;
  abort_reason = input.abort_reason;
  started_at = timing.started_at;
  completed_at = timing.completed_at;
  duration_ms = timing.duration_ms;
}
