-- ===== src/Store/StageRuns/Progress.antt =====
-- The status of a stage's run under the writes of src/store/stage-run-store.ts.
use saivage.Base.{
  String, ◌≡◌, ◌≤◌, refl, sym, Bool, true, false, not, Option, none, some, List, [], ◌∷◌, arith,
  if◌then◌else◌, all, subst,
}
use saivage.Plan.Document.{StageResult}
use saivage.Store.EventLog.{StageRunEvent, Codec, Lawful, Appended}
use saivage.Store.Artifacts.{task_list_ok, task_report_ok, stage_summary_ok}
use saivage.Store.StageRuns.Runs.{StageRun, Orders}
use saivage.Store.StageRuns.{
  Disk, WriteEnv, WriteOpts, log_event, write_task_list, mark_stage_started, mark_task_started,
  write_task_report, write_stage_summary, mark_stage_completed, log_archived,
}
use saivage.Store.StageRuns.Calls.{
  StoreCall, tasks_call, stage_start_call, task_start_call, report_call, summary_call,
  completion_call, is_whole, whole, store_step, store_run,
}
use saivage.Store.StageRuns.Steps.{
  Moves, Moves-refl, Moves-trans, put_tasks-Moves, put_summary-Moves, put_report-Moves,
  log_event-Moves,
}
use saivage.Store.StageRuns.Reads.{get_stage_run}
use saivage.Store.StageRuns.Status.{level, rank_of}
use saivage.Store.StageRuns.Readable.{get_stage_run_reads, get_stage_run_returns}

module _ {Text : Type 0} (codec : Codec Text) (lawful : Lawful codec) (orders : Orders)
    (id : String) where
  -- a schema, a write of a document, an append
  document-Moves :
      (ok takes : Bool) (disk disk' : Disk Text) (e : StageRunEvent) (outcome : Appended Text)
      → whole outcome ≡ true
      → (ok ≡ true → Moves codec orders id disk disk')
      → Moves codec orders id disk
          (if not ok
            then (false, disk)
            else if not takes
            then (false, disk)
            else log_event codec e outcome disk').1
  document-Moves false takes disk disk' e outcome w m = Moves-refl codec orders id disk
  document-Moves true false disk disk' e outcome w m = Moves-refl codec orders id disk
  document-Moves true true disk disk' e outcome w m =
      Moves-trans codec orders id disk disk' _ (m refl)
        (log_event-Moves codec lawful orders id e outcome disk' w)

  log_archived-Moves :
      (env : WriteEnv Text) (stage_id at : String) (archive_ok : Option Bool) (disk : Disk Text)
      (result : Bool × Disk Text)
      → whole env.second_appended ≡ true
      → Moves codec orders id disk result.1
      → Moves codec orders id disk (log_archived codec env stage_id at archive_ok result).1
  log_archived-Moves env stage_id at none disk result w m = m
  log_archived-Moves env stage_id at (some ok) disk (false, disk') w m = m
  log_archived-Moves env stage_id at (some ok) disk (true, disk') w m =
      Moves-trans codec orders id disk disk' _ m
        (log_event-Moves codec lawful orders id _ env.second_appended disk' w)

  mark_stage_completed-Moves :
      (env : WriteEnv Text) (stage_id : String) (result : StageResult) (archive_ok : Option Bool)
      (opts : WriteOpts) (disk : Disk Text)
      → whole env.appended ≡ true
      → whole env.second_appended ≡ true
      → Moves codec orders id disk
          (mark_stage_completed codec env stage_id result archive_ok opts disk).1
  unfolding mark_stage_completed
  mark_stage_completed-Moves env stage_id result archive_ok opts disk w w' =
      log_archived-Moves env stage_id _ archive_ok disk _ w'
        (log_event-Moves codec lawful orders id _ env.appended disk w)

  store_step-Moves :
      (call : StoreCall Text) (disk : Disk Text)
      → is_whole call ≡ true
      → Moves codec orders id disk (store_step codec call disk)
  unfolding store_step write_task_list mark_stage_started mark_task_started write_task_report
      write_stage_summary
  store_step-Moves (tasks_call env list opts) disk w =
      document-Moves (task_list_ok list) env.takes disk _ _ env.appended (ground arith)
        (put_tasks-Moves codec orders id list _ disk)
  store_step-Moves (stage_start_call env stage opts) disk w =
      log_event-Moves codec lawful orders id _ env.appended disk (ground arith)
  store_step-Moves (task_start_call env stage_id task_id opts) disk w =
      log_event-Moves codec lawful orders id _ env.appended disk (ground arith)
  store_step-Moves (report_call env report opts) disk w =
      document-Moves (task_report_ok report) env.takes disk _ _ env.appended (ground arith)
        (put_report-Moves codec orders id report _ disk)
  store_step-Moves (summary_call env summary opts) disk w =
      document-Moves (stage_summary_ok summary) env.takes disk _ _ env.appended (ground arith)
        (put_summary-Moves codec orders id summary _ disk)
  store_step-Moves (completion_call env stage_id result archive_ok opts) disk w =
      mark_stage_completed-Moves env stage_id result archive_ok opts disk (ground arith)
        (ground arith)

  store_run-Moves :
      (calls : List (StoreCall Text)) (disk : Disk Text)
      → all is_whole calls ≡ true
      → Moves codec orders id disk (store_run codec calls disk)
  unfolding store_run
  store_run-Moves [] disk w = Moves-refl codec orders id disk
  store_run-Moves (call ∷ calls) disk w =
      Moves-trans codec orders id disk _ _ (store_step-Moves call disk (ground arith))
        (store_run-Moves calls (store_step codec call disk) (ground arith))

  -- With a lawful codec, from a disk whose log ends with a newline and where getStageRun returns
  -- for a stage: after any writes, none of whose appends is cut off, it returns, and its status
  -- has not fallen back, in the order of no run or planned, tasks_ready, summarized, and one of
  -- the four that end a run.
  pub store_run-rank :
      (calls : List (StoreCall Text)) (disk : Disk Text) (run : Option StageRun)
      → all is_whole calls ≡ true
      → disk.log.tail ≡ codec.empty
      → get_stage_run codec orders id disk ≡ some run
      → (later : Option StageRun) × (get_stage_run codec orders id (store_run codec calls disk)
          ≡ some later)
        × (rank_of run ≤ rank_of later)
  store_run-rank calls disk run w closed h =
      let r = get_stage_run_reads codec orders id disk h in
      let (closed', r', up) = store_run-Moves calls disk w closed r in
      let (later, g, level') =
        get_stage_run_returns codec orders id (store_run codec calls disk) r' in
      let (now, g', level) = get_stage_run_returns codec orders id disk r in
      let same : run ≡ now = cc (h, g') in
      (
        later,
        g,
        subst (λ x. rank_of x ≤ rank_of later) (sym same) (omega (arith, up, level', level)),
      )
