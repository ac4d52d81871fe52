-- ===== src/Store/Artifacts.antt =====
-- The artifacts of a stage: the Zod schemas `TaskListSchema`, `TaskReportSchema` and `StageSummarySchema` of
-- src/types.ts on values of the declared types. A field's type holds by construction; what a schema says
-- beside the types is a test.
use saivage.Base.{
  ℕ, String, Bool, ◌+◌, ◌-◌, Option, List, map, filter, elem, leb, if◌then◌else◌, all,
}
use saivage.Plan.Document.{StageResult, Escalation}
use saivage.Runtime.Roster.{roster}

-- a number that may be negative
pub data ℤ : Type 0 where
  pos negsuc : ℕ → ℤ

-- `a - b`
unfoldable pub difference : ℕ → ℕ → ℤ
difference a b = if leb b a then pos (a - b) else negsuc (b - a - 1)

-- `WORKER_ROLES`
unfoldable pub worker_roles : List String
worker_roles = map (λ e. e.role) (filter (λ e. e.worker) roster)

pub record ChecklistItem : Type 0 where
  pub description : String
  pub required : Bool

pub data TaskType : Type 0 where
  code research data_task review test document design critique : TaskType

pub data TaskStatus : Type 0 where
  pending in_progress completed failed aborted : TaskStatus

-- `TaskSchema`
pub record Task : Type 0 where
  pub id : String
  pub type : TaskType
  pub assigned_to : String
  pub description : String
  pub checklist : List ChecklistItem
  pub dependencies : List String
  pub status : TaskStatus
  pub tags : List String
  pub started_at : Option String
  pub completed_at : Option String
  pub attempt : ℕ
  pub max_attempts : ℕ

-- `TaskListSchema`
pub record TaskList : Type 0 where
  pub stage_id : String
  pub created_at : String
  pub updated_at : String
  pub tasks : List Task

unfoldable pub task_list_ok : TaskList → Bool
unfolding worker_roles
task_list_ok list = all (λ task. elem task.assigned_to worker_roles) list.tasks

-- `ChecklistResultSchema`
pub record ChecklistResult : Type 0 where
  pub description : String
  pub passed : Bool
  pub notes : Option String

-- `TestResultSchema`
pub record TestResult : Type 0 where
  pub name : String
  pub passed : Bool
  pub output : Option String

pub data Severity : Type 0 where
  info warning error : Severity

-- `IssueSchema`
pub record Issue : Type 0 where
  pub severity : Severity
  pub description : String
  pub file : Option String
  pub line : Option ℕ
  pub error_output : Option String
  pub root_cause : Option String
  pub suggestion : Option String

-- `status` of a report
pub data ReportStatus : Type 0 where
  report_completed report_failed : ReportStatus

-- `TaskReportSchema`
pub record TaskReport : Type 0 where
  pub task_id : String
  pub stage_id : String
  pub agent : String
  pub status : ReportStatus
  pub summary : String
  pub checklist_results : List ChecklistResult
  pub files_modified : List String
  pub files_created : List String
  pub tests_added : List String
  pub tests_run : List TestResult
  pub commits : List String
  pub issues_found : List Issue
  pub output_truncated : Option Bool
  pub failure_reason : Option String
  pub started_at : String
  pub completed_at : String
  pub duration_ms : ℤ

unfoldable pub task_report_ok : TaskReport → Bool
unfolding worker_roles
task_report_ok report = elem report.agent worker_roles

-- `StageSummarySchema`
pub record StageSummary : Type 0 where
  pub stage_id : String
  pub result : StageResult
  pub summary : String
  pub tasks_completed : ℕ
  pub tasks_failed : ℕ
  pub total_tasks : ℕ
  pub outcomes_achieved : List String
  pub outcomes_missed : List String
  pub issues : List Issue
  pub escalation : Option Escalation
  pub abort_reason : Option String
  pub started_at : String
  pub completed_at : String
  pub duration_ms : ℤ

unfoldable pub stage_summary_ok : StageSummary → Bool
stage_summary_ok s = leb (s.tasks_completed + s.tasks_failed) s.total_tasks
