-- ===== src/Store/StageRuns/Calls.antt =====
-- The operations of `StageRunStore` that write, one after the other, as `writeQueue` orders them.
use saivage.Base.{String, Bool, true, false, ◌&&◌, Option, List, [], ◌∷◌}
use saivage.Plan.Document.{Stage, StageResult}
use saivage.Store.EventLog.{Codec, Appended, torn}
use saivage.Store.Artifacts.{TaskList, TaskReport, StageSummary}
use saivage.Store.StageRuns.{
  Disk, WriteEnv, WriteOpts, write_task_list, mark_stage_started, mark_task_started,
  write_task_report, write_stage_summary, mark_stage_completed,
}

abbrev pub whole : {Text : Type 0} → Appended Text → Bool
whole (torn part) = false
whole _ = true

-- an operation that writes, with its arguments
pub data StoreCall (Text : Type 0) : Type 0 where
  tasks_call : WriteEnv Text → TaskList → WriteOpts → StoreCall Text
  stage_start_call : WriteEnv Text → Stage → WriteOpts → StoreCall Text
  task_start_call : WriteEnv Text → String → String → WriteOpts → StoreCall Text
  report_call : WriteEnv Text → TaskReport → WriteOpts → StoreCall Text
  summary_call : WriteEnv Text → StageSummary → WriteOpts → StoreCall Text
  completion_call : WriteEnv Text → String → StageResult → Option Bool → WriteOpts → StoreCall Text

abbrev env_of : {Text : Type 0} → StoreCall Text → WriteEnv Text
env_of (tasks_call env _ _) = env
env_of (stage_start_call env _ _) = env
env_of (task_start_call env _ _ _) = env
env_of (report_call env _ _) = env
env_of (summary_call env _ _) = env
env_of (completion_call env _ _ _ _) = env

-- No append of the call is cut off.
abbrev pub is_whole : {Text : Type 0} → StoreCall Text → Bool
is_whole call = whole (env_of call).appended && whole (env_of call).second_appended

module _ {Text : Type 0} (codec : Codec Text) where
  unfoldable pub store_step : StoreCall Text → Disk Text → Disk Text
  unfolding write_task_list mark_stage_started mark_task_started write_task_report
      write_stage_summary mark_stage_completed
  store_step (tasks_call env list opts) disk = (write_task_list codec env list opts disk).1
  store_step (stage_start_call env stage opts) disk =
      (mark_stage_started codec env stage opts disk).1
  store_step (task_start_call env stage_id task_id opts) disk =
      (mark_task_started codec env stage_id task_id opts disk).1
  store_step (report_call env report opts) disk = (write_task_report codec env report opts disk).1
  store_step (summary_call env summary opts) disk =
      (write_stage_summary codec env summary opts disk).1
  store_step (completion_call env stage_id result archive_ok opts) disk =
      (mark_stage_completed codec env stage_id result archive_ok opts disk).1

  unfoldable pub store_run : List (StoreCall Text) → Disk Text → Disk Text
  unfolding store_step
  store_run [] disk = disk
  store_run (call ∷ calls) disk = store_run calls (store_step call disk)
