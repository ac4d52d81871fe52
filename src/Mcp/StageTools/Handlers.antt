-- ===== src/Mcp/StageTools/Handlers.antt =====
-- The handlers of the artifact tools of src/mcp/plan-server.ts. The first argument is whether the service has a
-- `StageRunStore`; each `try` turns what is thrown into VALIDATION_ERROR.
use saivage.Base.{String, Bool, not, Option, none, some, List, [], if◌then◌else◌, is_blank}
use saivage.Plan.Reply.{PlanErrorCode, validation_error, io_error}
use saivage.Store.Artifacts.{TaskList, task_list_ok, TaskReport, StageSummary}
use saivage.Store.EventLog.{Codec}
use saivage.Store.StageRuns.{
  Disk, WriteEnv, write_task_list, write_task_report, write_stage_summary,
}
use saivage.Store.StageRuns.Reads.{◌>>=◌, read_doc, get_stage_run}
use saivage.Store.StageRuns.Runs.{Orders, StageRun, ◌or_else◌}
use saivage.Mcp.StageTools.{
  CallOptions, TaskListInput, ReportArgs, SummaryArgs, Clock, ToolAnswer, failed, chosen,
  agent_id_from_opts, is_worker_role, runtime_timing, truthy, need, answer, report_of,
  report_timing, summary_of, summary_timing,
}

abbrev context_stage : CallOptions → Option String
context_stage opts =
    chosen (λ a. a.stage_id) opts.artifact or_else chosen (λ c. c.stage_id) opts.ctx

-- the agent of a report: the caller's role if it is a worker's, else what the report says
abbrev report_agent : CallOptions → Option TaskReport → Option String
report_agent opts canonical =
    let role = chosen (λ c. some c.role) opts.ctx in
    if is_worker_role role then role else chosen (λ r. some r.agent) canonical

abbrev created_or : Option TaskList → String → String
created_or none now = now
created_or (some existing) now = existing.created_at

-- `stage_get_run` returns a run or null, or an error, or throws
pub data RunAnswer : Type 0 where
  run_found : Option StageRun → RunAnswer
  run_refused : PlanErrorCode → RunAnswer
  run_thrown : RunAnswer

abbrev run_answer : Option (Option StageRun) → RunAnswer
run_answer none = run_thrown
run_answer (some run) = run_found run

abbrev reports_of : Option StageRun → List TaskReport
reports_of none = []
reports_of (some run) = run.reports

pub data ReportsAnswer : Type 0 where
  reports_found : List TaskReport → ReportsAnswer
  reports_refused : PlanErrorCode → ReportsAnswer
  reports_thrown : ReportsAnswer

-- the report that `task_write_report` is to write, or none where it ends with VALIDATION_ERROR
unfoldable pub report_to_write : Clock → ReportArgs → CallOptions → Option TaskReport
unfolding is_worker_role runtime_timing
report_to_write clock args opts = do
  input ← args.input
  task_id ←
      truthy
        (chosen (λ a. a.task_id) opts.artifact or_else chosen (λ r. some r.task_id) args.canonical)
  stage_id ← truthy (context_stage opts or_else chosen (λ r. some r.stage_id) args.canonical)
  agent ← truthy (report_agent opts args.canonical)
  timing ← runtime_timing clock opts (chosen (λ r. some (report_timing r)) args.canonical)
  some (report_of input task_id stage_id agent timing)

-- the summary that `stage_write_summary` is to write, or none where it ends with VALIDATION_ERROR
unfoldable pub summary_to_write : Clock → SummaryArgs → CallOptions → Option StageSummary
unfolding runtime_timing
summary_to_write clock args opts = do
  input ← args.input
  stage_id ← truthy (
      input.stage_id
      or_else context_stage opts
      or_else chosen (λ s. some s.stage_id) args.canonical)
  timing ← runtime_timing clock opts (chosen (λ s. some (summary_timing s)) args.canonical)
  some (summary_of input stage_id timing)

abbrev new_list : Clock → Option TaskList → TaskListInput → String → TaskList
new_list clock existing input stage_id = record {
  stage_id = stage_id;
  created_at = created_or existing clock.now;
  updated_at = clock.now;
  tasks = input.tasks;
}

module _ {Text : Type 0} (codec : Codec Text) (configured : Bool) where
  -- the list that `stage_write_tasks` is to write, or none where it ends with VALIDATION_ERROR
  unfoldable pub list_to_write :
      Clock → Option TaskListInput → CallOptions → Disk Text → Option TaskList
  unfolding read_doc
  list_to_write clock args opts disk = do
    input ← args
    stage_id ← truthy (input.stage_id or_else context_stage opts)
    existing ← read_doc task_list_ok (disk.tasks stage_id)
    some (new_list clock existing input stage_id)

  unfoldable pub stage_write_tasks :
      WriteEnv Text
      → Clock
      → Option TaskListInput
      → CallOptions
      → Disk Text
      → ToolAnswer × Disk Text
  unfolding list_to_write write_task_list agent_id_from_opts
  stage_write_tasks env clock args opts disk =
      if not configured
      then (failed io_error, disk)
      else need (list_to_write clock args opts disk)
          (λ list disk. answer list.stage_id none (
            write_task_list codec env list
              (record { agent_id = agent_id_from_opts opts; at = some clock.now }) disk))
          disk

  unfoldable pub task_write_report :
      WriteEnv Text → Clock → ReportArgs → CallOptions → Disk Text → ToolAnswer × Disk Text
  unfolding report_to_write write_task_report agent_id_from_opts
  task_write_report env clock args opts disk =
      if not configured
      then (failed io_error, disk)
      else need (report_to_write clock args opts)
          (λ report disk. answer report.stage_id (some report.task_id) (
            write_task_report codec env report
              (record { agent_id = agent_id_from_opts opts; at = some report.completed_at }) disk))
          disk

  unfoldable pub stage_write_summary :
      WriteEnv Text → Clock → SummaryArgs → CallOptions → Disk Text → ToolAnswer × Disk Text
  unfolding summary_to_write write_stage_summary agent_id_from_opts
  stage_write_summary env clock args opts disk =
      if not configured
      then (failed io_error, disk)
      else need (summary_to_write clock args opts)
          (λ summary disk. answer summary.stage_id none (
            write_stage_summary codec env summary
              (record { agent_id = agent_id_from_opts opts; at = some summary.completed_at }) disk))
          disk

  -- an argument that is no text is none
  unfoldable pub stage_get_run : Orders → Option String → Disk Text → RunAnswer
  unfolding get_stage_run is_blank
  stage_get_run orders none disk = run_refused (if configured then validation_error else io_error)
  stage_get_run orders (some id) disk =
      if not configured
      then run_refused io_error
      else if is_blank id
      then run_refused validation_error
      else run_answer (get_stage_run codec orders id disk)

  unfoldable pub stage_list_reports : Orders → Option String → Disk Text → ReportsAnswer
  unfolding stage_get_run
  stage_list_reports orders id disk = elim (stage_get_run orders id disk) [
    | run_found run ↦ reports_found (reports_of run)
    | run_refused code ↦ reports_refused code
    | run_thrown ↦ reports_thrown
  ]
