-- ===== src/Store/StageRuns.antt =====
-- `StageRunStore` of src/store/stage-run-store.ts: what stands on disk, and the operations that write.
-- A path is given by the ids in it, as `stageTaskListPath` and its like build it, with ids that are plain file names.
pub mod Runs
pub mod Reads
pub mod Status
pub mod Readable
pub mod Calls
pub mod Changed
pub mod Steps
pub mod Progress
pub mod Expected
use saivage.Base.{
  ℕ, String, Bool, true, false, not, Option, none, some, List, [], ◌∷◌, ◌++◌, map, elem, length,
  if◌then◌else◌, ◌==◌, map_get, map_set,
}
use saivage.Plan.Document.{Stage, StageResult, PlanDocument}
use saivage.Store.EventLog.{
  StageRunEvent, EventType, stage_started, tasks_written, task_started, task_report_written,
  stage_summary_written, stage_completed, knowledge_archived, event_ok, Codec, LogFile, Appended,
  written, refused, torn, append_event,
}
use saivage.Store.Artifacts.{
  TaskList, task_list_ok, TaskReport, task_report_ok, StageSummary, stage_summary_ok,
}

-- a file for a document: none, one that is no JSON or has fields of other types, or one with a document of the type
pub data Stored {ℓ} (A : Type ℓ) : Type ℓ where
  missing damaged : Stored A
  present : A → Stored A

-- `stage_dirs` are the names in the folder of stages; the reports of a stage stand by their task ids.
pub record Disk (Text : Type 0) : Type 0 where
  pub plan : Stored PlanDocument
  pub stage_dirs : List String
  pub tasks : String → Stored TaskList
  pub reports : String → List (String × Stored TaskReport)
  pub summaries : String → Stored StageSummary
  pub log : LogFile Text

-- what an operation finds outside: the clock, whether the file system takes a document,
-- and, for each event, its id and how its append ends
pub record WriteEnv (Text : Type 0) : Type 0 where
  pub now : String
  pub takes : Bool
  pub event_id : String
  pub appended : Appended Text
  pub second_id : String
  pub second_appended : Appended Text

-- `opts`
pub record WriteOpts : Type 0 where
  pub agent_id : Option String
  pub at : Option String

abbrev value_or : Option String → String → String
value_or none fallback = fallback
value_or (some text) fallback = text

abbrev add_name : String → List String → List String
add_name name names = if elem name names then names else names ++ name ∷ []

abbrev pub put : {A : Type 0} → (String → A) → String → A → String → A
put files id file other = if id == other then file else files other

-- the fields that all events have
abbrev bare_event : String → EventType → String → String → Option String → StageRunEvent
bare_event event_id type stage_id at agent_id = record {
  event_id = event_id;
  type = type;
  stage_id = stage_id;
  at = at;
  task_id = none;
  task_count = none;
  status = none;
  result = none;
  agent_id = agent_id;
  outcome_ok = none;
}

abbrev pub is_written : {Text : Type 0} → Appended Text → Bool
is_written written = true
is_written _ = false

module _ {Text : Type 0} (codec : Codec Text) where
  -- `appendEvent`: the schema, then the append; `false` where it throws
  unfoldable pub log_event : StageRunEvent → Appended Text → Disk Text → Bool × Disk Text
  log_event e outcome disk =
      if event_ok e
      then (is_written outcome, record disk { log = append_event codec disk.log e outcome })
      else (false, disk)

  unfoldable pub write_task_list :
      WriteEnv Text → TaskList → WriteOpts → Disk Text → Bool × Disk Text
  unfolding log_event
  write_task_list env list opts disk =
      if not (task_list_ok list)
      then (false, disk)
      else if not env.takes
      then (false, disk)
      else log_event
          (record (bare_event env.event_id tasks_written list.stage_id (value_or opts.at env.now)
            opts.agent_id) { task_count = some (length list.tasks) })
          env.appended
          (record disk {
            stage_dirs = add_name list.stage_id disk.stage_dirs;
            tasks = put disk.tasks list.stage_id (present list);
          })

  unfoldable pub mark_stage_started :
      WriteEnv Text → Stage → WriteOpts → Disk Text → Bool × Disk Text
  unfolding log_event
  mark_stage_started env stage opts =
      log_event
        (bare_event env.event_id stage_started stage.id (value_or opts.at env.now) opts.agent_id)
        env.appended

  unfoldable pub mark_task_started :
      WriteEnv Text → String → String → WriteOpts → Disk Text → Bool × Disk Text
  unfolding log_event
  mark_task_started env stage_id task_id opts =
      log_event
        (record (bare_event env.event_id task_started stage_id (value_or opts.at env.now)
          opts.agent_id) { task_id = some task_id })
        env.appended

  unfoldable pub write_task_report :
      WriteEnv Text → TaskReport → WriteOpts → Disk Text → Bool × Disk Text
  unfolding log_event
  write_task_report env report opts disk =
      if not (task_report_ok report)
      then (false, disk)
      else if not env.takes
      then (false, disk)
      else log_event
          (record (bare_event env.event_id task_report_written report.stage_id
            (value_or opts.at env.now) opts.agent_id) {
              task_id = some report.task_id;
              status = some report.status;
            })
          env.appended
          (record disk {
            stage_dirs = add_name report.stage_id disk.stage_dirs;
            reports =
                put disk.reports report.stage_id
                  (map_set (disk.reports report.stage_id) report.task_id (present report));
          })

  unfoldable pub write_stage_summary :
      WriteEnv Text → StageSummary → WriteOpts → Disk Text → Bool × Disk Text
  unfolding log_event
  write_stage_summary env summary opts disk =
      if not (stage_summary_ok summary)
      then (false, disk)
      else if not env.takes
      then (false, disk)
      else log_event
          (record (bare_event env.event_id stage_summary_written summary.stage_id
            (value_or opts.at env.now) opts.agent_id) { result = some summary.result })
          env.appended
          (record disk {
            stage_dirs = add_name summary.stage_id disk.stage_dirs;
            summaries = put disk.summaries summary.stage_id (present summary);
          })

  -- the event for `knowledgeArchiveOutcome`, if there is one and the first append succeeds
  abbrev pub log_archived :
      WriteEnv Text → String → String → Option Bool → Bool × Disk Text → Bool × Disk Text
  log_archived env stage_id at none result = result
  log_archived env stage_id at (some ok) (false, disk) = (false, disk)
  log_archived env stage_id at (some ok) (true, disk) =
      log_event
        (record (bare_event env.second_id knowledge_archived stage_id at none) {
          outcome_ok = some ok;
        })
        env.second_appended disk

  unfoldable pub mark_stage_completed :
      WriteEnv Text → String → StageResult → Option Bool → WriteOpts → Disk Text → Bool × Disk Text
  unfolding log_event
  mark_stage_completed env stage_id result archive_ok opts disk =
      let at = value_or opts.at env.now in
      let e = record (bare_event env.event_id stage_completed stage_id at opts.agent_id) {
        result = some result;
      } in
      log_archived env stage_id at archive_ok (log_event e env.appended disk)
