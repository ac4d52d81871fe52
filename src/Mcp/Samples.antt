-- ===== src/Mcp/Samples.antt =====
-- The theorems on src/mcp at concrete inputs.
use saivage.Base.{◌≡◌, ◌≢◌, ◌↔◌, refl, true, false, none, some, [], ◌∷◌}
use saivage.Knowledge.Permissions.{coder, memory, stage}
use saivage.Knowledge.Records.{active, authored, Topic, of_memory, RecordRow, Sidecar}
use saivage.Knowledge.Lifecycle.{Env}
use saivage.Mcp.MemoryTools.{
  ToolContext, MemoryTool, update_memory_tool, get_memory_tool, ToolError, refused, rejected,
  out_of_fuel, memory_handler,
}
use saivage.Mcp.MemoryTools.Confined.{Confines}
use saivage.Mcp.MemoryTools.Handler.{memory_handler-Confines}
use saivage.Mcp.MemoryTools.Answers.{UnknownRole, memory_handler_answers}
use saivage.Plan.Document.{completed}
use saivage.Store.Artifacts.{report_completed, task_report_ok, stage_summary_ok}
use saivage.Store.EventLog.{event_ok}
use saivage.Store.Samples.{pieces, disk, env}
use saivage.Mcp.StageTools.{CallOptions, TaskReportInput, Clock, ReportArgs, SummaryArgs, wrote}
use saivage.Mcp.StageTools.Handlers.{task_write_report, stage_write_summary}
use saivage.Mcp.StageTools.Delivered.{IsReported, task_write_report-wrote}

abbrev outside : Env
outside = record {
  lock_held = true;
  now = "2026-05-02T00:00:00Z";
  new_id = "new";
  finds_secret = λ t. false;
  finds_blocked_path = λ t. false;
  formats = record { is_datetime = λ t. true; is_record_id = λ t. true };
  index_ok = true;
}

abbrev ports : Topic
ports = record { domain = "net"; subject = "ports"; aspect = none }

abbrev stage_memory : RecordRow
stage_memory = record {
  id = "m1";
  kind = memory;
  scope = stage;
  scope_ref = some "stg-1";
  status = active;
  origin = authored;
  json = record {
    id = "m1";
    scope = stage;
    status = active;
    created_at = "2026-05-01T00:00:00Z";
    updated_at = "2026-05-01T00:00:00Z";
    author_agent = record { role = coder; agent_id = "coder-1" };
    scope_ref = some "stg-1";
    expires_at = none;
    ttl_ms = none;
    supersedes = none;
    survive_compaction = false;
    target_agents = [];
    details = of_memory ports [] "8080" none;
  };
  body = "8080";
  created_at = "2026-05-01T00:00:00Z";
  updated_at = "2026-05-01T00:00:00Z";
  supersedes = none;
  superseded_by = none;
  pending_reingest = false;
  key = "ports";
}

abbrev tables : Sidecar
tables = record { rows = stage_memory ∷ []; audit = [] }

abbrev coder_context : ToolContext
coder_context = record {
  role = some coder;
  agent_id = "coder-1";
  stage_id = some "stg-1";
  channel_id = none;
}

abbrev new_port : MemoryTool
new_port = update_memory_tool (record {
  keys = none;
  common = record {
    id = "m1";
    body = some "9090";
    target_agents = none;
    expires_at = none;
    ttl_ms = none;
    reason = "the port has changed";
  };
})

memory_handler-Confines_example :
    Confines coder coder_context tables
      (memory_handler outside (some coder_context) new_port tables).1
memory_handler-Confines_example =
    memory_handler-Confines outside coder_context new_port tables coder refl

abbrev read_it : MemoryTool
read_it = get_memory_tool (some "m1") none

memory_handler_answers_example :
    ((memory_handler outside (some coder_context) read_it tables).0 ≢ out_of_fuel)
    × (((memory_handler outside (some coder_context) read_it tables).0 ≡ rejected)
        ↔ UnknownRole (some coder_context))
    × ((e : ToolError)
        → (memory_handler outside (some coder_context) read_it tables).0 ≡ refused e
        → (memory_handler outside (some coder_context) read_it tables).1 ≡ tables)
memory_handler_answers_example = memory_handler_answers outside (some coder_context) read_it tables

abbrev worker_options : CallOptions
worker_options = record {
  ctx = some (record { role = "coder"; agent_id = "coder-1"; stage_id = none });
  artifact = some (record {
    stage_id = some "stg-1";
    task_id = some "task-1";
    timing = some (record { started_at = "s"; start_ms = 5 });
  });
  agent_id = none;
}

abbrev report_input : TaskReportInput
report_input = record {
  status = report_completed;
  summary = "done";
  checklist_results = [];
  files_modified = [];
  files_created = [];
  tests_added = [];
  tests_run = [];
  commits = [];
  issues_found = [];
  output_truncated = none;
  failure_reason = none;
}

abbrev clock : Clock
clock = record { now = "t"; now_ms = 7 }

abbrev report_args : ReportArgs
report_args = record { input = some report_input; canonical = none }

report_is_written :
    (task_write_report pieces true (env "e1") clock report_args worker_options disk).0
    ≡ wrote "stg-1" (some "task-1")
unfolding task_write_report task_report_ok event_ok
report_is_written = refl

task_write_report-wrote_example :
    IsReported "stg-1" "task-1" "stg-1" "task-1" "coder" disk
      (task_write_report pieces true (env "e1") clock report_args worker_options disk).1
task_write_report-wrote_example =
    task_write_report-wrote pieces true (env "e1") clock report_args worker_options disk "stg-1"
      "task-1" "stg-1" "task-1" "coder" report_is_written

abbrev summary_args : SummaryArgs
summary_args = record {
  input = some (record {
    stage_id = none;
    result = completed;
    summary = "done";
    tasks_completed = 1;
    tasks_failed = 0;
    total_tasks = 1;
    outcomes_achieved = [];
    outcomes_missed = [];
    issues = [];
    escalation = none;
    abort_reason = none;
  });
  canonical = none;
}

summary_is_written :
    (stage_write_summary pieces true (env "e1") clock summary_args worker_options disk).0
    ≡ wrote "stg-1" none
unfolding stage_write_summary stage_summary_ok event_ok
summary_is_written = refl
