-- ===== src/Store/StageRuns/Readable.antt =====
-- When `getStageRun` returns, and what it returns then.
use saivage.Base.{
  ℕ, String, ◌≡◌, refl, true, Option, none, some, List, [], ◌∷◌, arith, inl, inr, Bool-cases,
  if◌then◌else◌,
}
use saivage.Plan.Document.{PlanDocument, document_ok, Stage, CompletedStage}
use saivage.Store.EventLog.{StageRunEvent, Codec, read_events, of_stage}
use saivage.Store.Artifacts.{TaskList, task_list_ok, TaskReport, StageSummary, stage_summary_ok}
use saivage.Store.StageRuns.Runs.{StageRun, Orders, is_unknown, stage_run}
use saivage.Store.StageRuns.{Disk}
use saivage.Store.StageRuns.Reads.{
  ◌>>=◌, read_doc, find_definition, find_completion, read_task_reports, get_stage_run,
}
use saivage.Store.StageRuns.Status.{rank_of, level, stage_run-level}

pub bind-some :
    {A B : Type 0} (o : Option A) (f : A → Option B) {b : B}
    → (o >>= f) ≡ some b
    → (a : A) × (o ≡ some a) × (f a ≡ some b)
bind-some none f h = cc
bind-some (some a) f h = (a, refl, h)

module _ {Text : Type 0} (codec : Codec Text) (orders : Orders) (id : String) where
  -- what the reads for a stage give
  pub record Readings (disk : Disk Text) : Type 0 where
    pub plan : Option PlanDocument
    pub tasks : Option TaskList
    pub summary : Option StageSummary
    pub events : List StageRunEvent
    pub reports : List TaskReport
    pub plan_read : read_doc document_ok disk.plan ≡ some plan
    pub tasks_read : read_doc task_list_ok (disk.tasks id) ≡ some tasks
    pub summary_read : read_doc stage_summary_ok (disk.summaries id) ≡ some summary
    pub events_read : read_events codec disk.log ≡ some events
    pub reports_read : read_task_reports (disk.reports id) ≡ some reports

  unfoldable pub level_of : {disk : Disk Text} → Readings disk → ℕ
  level_of r = level (find_completion id r.plan) (of_stage id r.events) r.summary r.tasks

  level-unknown :
      (definition : Option Stage) (completed : Option CompletedStage) (tasks : Option TaskList)
      (summary : Option StageSummary) (reports : List TaskReport) (events : List StageRunEvent)
      → is_unknown definition completed tasks summary reports events ≡ true
      → level completed events summary tasks ≡ 0
  unfolding level
  level-unknown definition completed tasks summary reports [] h = ground arith
  level-unknown definition completed tasks summary reports (e ∷ es) h = ground arith

  pub get_stage_run_returns :
      (disk : Disk Text) (r : Readings disk)
      → (run : Option StageRun) × (get_stage_run codec orders id disk ≡ some run)
        × (rank_of run ≡ level_of r)
  unfolding get_stage_run rank_of level_of
  get_stage_run_returns disk r =
      let definition = find_definition id r.plan in
      let completed = find_completion id r.plan in
      let events = of_stage id r.events in
      let unknown = is_unknown definition completed r.tasks r.summary r.reports events in
      let full = stage_run orders id definition completed r.tasks r.summary events r.reports in
      let run : Option StageRun = if unknown then none else some full in
      (
        run,
        cc (r.plan_read, r.tasks_read, r.summary_read, r.events_read, r.reports_read),
        elim (Bool-cases unknown) [
          | inl u ↦
              ground
                (arith, level-unknown definition completed r.tasks r.summary r.reports events u)
          | inr k ↦ ground (
            arith,
            stage_run-level orders id definition completed r.tasks r.summary events r.reports,
          )
        ],
      )

  pub get_stage_run_reads :
      (disk : Disk Text) {run : Option StageRun}
      → get_stage_run codec orders id disk ≡ some run
      → Readings disk
  unfolding get_stage_run
  get_stage_run_reads disk h =
      let (plan, p, h1) = bind-some (read_doc document_ok disk.plan) _ h in
      let (tasks, t, h2) = bind-some (read_doc task_list_ok (disk.tasks id)) _ h1 in
      let (summary, s, h3) = bind-some (read_doc stage_summary_ok (disk.summaries id)) _ h2 in
      let (events, e, h4) = bind-some (read_events codec disk.log) _ h3 in
      let (reports, r, h5) = bind-some (read_task_reports (disk.reports id)) _ h4 in
      record {
        plan = plan;
        tasks = tasks;
        summary = summary;
        events = events;
        reports = reports;
        plan_read = p;
        tasks_read = t;
        summary_read = s;
        events_read = e;
        reports_read = r;
      }
