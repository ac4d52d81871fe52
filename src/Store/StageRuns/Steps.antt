-- ===== src/Store/StageRuns/Steps.antt =====
-- What the write of a document and an append do to the run of a stage.
use saivage.Base.{
  String, ◌≡◌, ◌≤◌, refl, sym, Bool, true, false, some, List, [], arith, inl, inr, Bool-cases,
  if◌then◌else◌, any, map_set, subst,
}
use saivage.Store.EventLog.{
  StageRunEvent, event_ok, Codec, Lawful, Appended, written, refused, torn, append_event, LogFile,
  read_events, of_stage,
}
use saivage.Store.EventLog.Durable.{with_new, read_events-append_event}
use saivage.Store.Artifacts.{
  TaskList, task_list_ok, TaskReport, task_report_ok, StageSummary, stage_summary_ok,
}
use saivage.Store.StageRuns.Runs.{Orders, is_completion}
use saivage.Store.StageRuns.{Disk, present, put, is_written, log_event}
use saivage.Store.StageRuns.Calls.{whole}
use saivage.Store.StageRuns.Reads.{find_completion}
use saivage.Store.StageRuns.Readable.{Readings, level_of}
use saivage.Store.StageRuns.Changed.{
  level_mono, of_stage-with_new, put-read_doc, put-read_task_reports,
}

module _ {Text : Type 0} (codec : Codec Text) (orders : Orders) (id : String) where
  -- The stage stays readable, and its level does not fall.
  abbrev pub Moves : Disk Text → Disk Text → Type 0
  Moves disk disk' =
      disk.log.tail ≡ codec.empty
      → (r : Readings codec orders id disk)
      → (disk'.log.tail ≡ codec.empty)
        × (r' : Readings codec orders id disk') × (level_of codec orders id r
            ≤ level_of codec orders id r')

  pub Moves-refl : (disk : Disk Text) → Moves disk disk
  Moves-refl disk closed r = (closed, r, omega arith)

  pub Moves-trans :
      (disk disk' disk'' : Disk Text) → Moves disk disk' → Moves disk' disk'' → Moves disk disk''
  Moves-trans disk disk' disk'' m m' closed r =
      let (closed', r', up) = m closed r in
      let (closed'', r'', up') = m' closed' r' in (closed'', r'', omega (arith, up, up'))

  pub put_tasks-Moves :
      (list : TaskList) (dirs : List String) (disk : Disk Text)
      → task_list_ok list ≡ true
      → Moves disk
          (record disk { stage_dirs = dirs; tasks = put disk.tasks list.stage_id (present list) })
  unfolding level_of
  put_tasks-Moves list dirs disk ok closed r =
      let (new, read, up) =
        put-read_doc task_list_ok disk.tasks list.stage_id id list ok r.tasks_read in
      (
        closed,
        record {
          plan = r.plan;
          tasks = new;
          summary = r.summary;
          events = r.events;
          reports = r.reports;
          plan_read = r.plan_read;
          tasks_read = read;
          summary_read = r.summary_read;
          events_read = r.events_read;
          reports_read = r.reports_read;
        },
        level_mono (find_completion id r.plan) (of_stage id r.events) (of_stage id r.events)
            r.summary r.summary r.tasks new (λ n. n) (λ n. n) up,
      )

  pub put_summary-Moves :
      (s : StageSummary) (dirs : List String) (disk : Disk Text)
      → stage_summary_ok s ≡ true
      → Moves disk
          (record disk { stage_dirs = dirs; summaries = put disk.summaries s.stage_id (present s) })
  unfolding level_of
  put_summary-Moves s dirs disk ok closed r =
      let (new, read, up) =
        put-read_doc stage_summary_ok disk.summaries s.stage_id id s ok r.summary_read in
      (
        closed,
        record {
          plan = r.plan;
          tasks = r.tasks;
          summary = new;
          events = r.events;
          reports = r.reports;
          plan_read = r.plan_read;
          tasks_read = r.tasks_read;
          summary_read = read;
          events_read = r.events_read;
          reports_read = r.reports_read;
        },
        level_mono (find_completion id r.plan) (of_stage id r.events) (of_stage id r.events)
            r.summary new r.tasks r.tasks (λ n. n) up (λ n. n),
      )

  pub put_report-Moves :
      (report : TaskReport) (dirs : List String) (disk : Disk Text)
      → task_report_ok report ≡ true
      → Moves disk (record disk {
        stage_dirs = dirs;
        reports =
            put disk.reports report.stage_id
              (map_set (disk.reports report.stage_id) report.task_id (present report));
      })
  unfolding level_of
  put_report-Moves report dirs disk ok closed r =
      let (new, read) =
        put-read_task_reports disk.reports report.stage_id id report.task_id report ok
          r.reports_read in
      (
        closed,
        record {
          plan = r.plan;
          tasks = r.tasks;
          summary = r.summary;
          events = r.events;
          reports = new;
          plan_read = r.plan_read;
          tasks_read = r.tasks_read;
          summary_read = r.summary_read;
          events_read = r.events_read;
          reports_read = read;
        },
        omega arith,
      )

module _ {Text : Type 0} (codec : Codec Text) (lawful : Lawful codec) (orders : Orders)
    (id : String) where
  log-Moves :
      (file : LogFile Text) (disk : Disk Text)
      → ((es : List StageRunEvent)
          → disk.log.tail ≡ codec.empty
          → read_events codec disk.log ≡ some es
          → (file.tail ≡ codec.empty)
            × (more : List StageRunEvent) × (read_events codec file ≡ some more)
            × (any is_completion (of_stage id es) ≡ true
                → any is_completion (of_stage id more) ≡ true))
      → Moves codec orders id disk (record disk { log = file })
  unfolding level_of
  log-Moves file disk step closed r =
      let (closed', more, read, up) = step r.events closed r.events_read in
      (
        closed',
        record {
          plan = r.plan;
          tasks = r.tasks;
          summary = r.summary;
          events = more;
          reports = r.reports;
          plan_read = r.plan_read;
          tasks_read = r.tasks_read;
          summary_read = r.summary_read;
          events_read = read;
          reports_read = r.reports_read;
        },
        level_mono (find_completion id r.plan) (of_stage id r.events) (of_stage id more) r.summary
            r.summary r.tasks r.tasks up (λ n. n) (λ n. n),
      )

  abbrev logged : StageRunEvent → Appended Text → LogFile Text → LogFile Text
  logged e outcome file = if event_ok e then append_event codec file e outcome else file

  log_event-logged :
      (e : StageRunEvent) (outcome : Appended Text) (disk : Disk Text)
      → (log_event codec e outcome disk).1 ≡ record disk { log = logged e outcome disk.log }
  unfolding log_event
  log_event-logged e outcome disk =
      elim (event_ok e)
        as (λ b.
          (if◌then◌else◌ {A = Bool × Disk Text} b
            (is_written outcome, record disk { log = append_event codec disk.log e outcome })
            (false, disk)).1
          ≡ record disk { log = if b then append_event codec disk.log e outcome else disk.log }) [
            | true ↦ refl
            | false ↦ refl
          ]

  logged-step :
      (e : StageRunEvent) (outcome : Appended Text) (file : LogFile Text)
      → whole outcome ≡ true
      → (es : List StageRunEvent) → file.tail ≡ codec.empty
      → read_events codec file ≡ some es
      → ((logged e outcome file).tail ≡ codec.empty)
        × (more : List StageRunEvent) × (read_events codec (logged e outcome file) ≡ some more)
        × (any is_completion (of_stage id es) ≡ true → any is_completion (of_stage id more) ≡ true)
  unfolding append_event
  logged-step e written file w es closed h = elim (Bool-cases (event_ok e)) [
    | inl ok ↦ (
      cc ok,
      with_new [] es e,
      cc (ok, read_events-append_event codec lawful file e es closed ok h),
      of_stage-with_new id es e,
    )
    | inr unfit ↦ (cc (unfit, closed), es, cc (unfit, h), λ c. c)
  ]
  logged-step e refused file w es closed h = elim (Bool-cases (event_ok e)) [
    | inl ok ↦ (cc (ok, closed), es, cc (ok, h), λ c. c)
    | inr unfit ↦ (cc (unfit, closed), es, cc (unfit, h), λ c. c)
  ]
  logged-step e (torn part) file w es closed h = cc w

  pub log_event-Moves :
      (e : StageRunEvent) (outcome : Appended Text) (disk : Disk Text)
      → whole outcome ≡ true
      → Moves codec orders id disk (log_event codec e outcome disk).1
  log_event-Moves e outcome disk w =
      subst (λ d. Moves codec orders id disk d) (sym (log_event-logged e outcome disk))
        (log-Moves (logged e outcome disk.log) disk (logged-step e outcome disk.log w))
