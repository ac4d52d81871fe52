-- ===== src/Mcp/StageTools/Delivered.antt =====
-- The artifact tools of src/mcp/plan-server.ts and the agents' checks of src/store/stage-run-store.ts.
use saivage.Base.{
  String, ◌≡◌, refl, ap, ◌∙◌, Bool, true, false, not, ◌&&◌, Option, none, some, List, arith, inl,
  inr, Bool-cases, if◌then◌else◌, ◌==◌, eq_of_test, map_set, map_get-map_set,
}
use saivage.Plan.Reply.{validation_error}
use saivage.Store.Artifacts.{TaskReport, task_report_ok, StageSummary, stage_summary_ok}
use saivage.Store.EventLog.{Codec, StageRunEvent, Appended}
use saivage.Store.StageRuns.{
  Disk, Stored, present, WriteEnv, WriteOpts, put, log_event, write_task_report,
  write_stage_summary,
}
use saivage.Store.StageRuns.Expected.{
  other_agent, valid, invalid, read_report, read_summary, read_expected_stage_task_report,
  read_expected_stage_summary,
}
use saivage.Mcp.StageTools.{
  CallOptions, ReportArgs, SummaryArgs, Clock, ToolAnswer, wrote, failed, agent_id_from_opts, need,
  answer,
}
use saivage.Mcp.StageTools.Handlers.{
  report_to_write, summary_to_write, task_write_report, stage_write_summary,
}

-- What holds of a refusal and of what comes after a test holds of both together.
need-cases :
    {A D : Type 0} (P : ToolAnswer × D → Type 0) (o : Option A) (f : A → D → ToolAnswer × D)
    (disk : D)
    → P (failed validation_error, disk)
    → ((a : A) → P (f a disk))
    → P (need o f disk)
need-cases P none f disk refusal h = refusal
need-cases P (some a) f disk refusal h = h a

answer-wrote :
    {D : Type 0} (s : String) (t : Option String) (result : Bool × D) {s' : String}
    {t' : Option String}
    → (answer s t result).0 ≡ wrote s' t'
    → (result.0 ≡ true) × (s ≡ s') × (t ≡ t') × ((answer s t result).1 ≡ result.1)
answer-wrote s t (true, d) h = (refl, cc h, cc h, refl)
answer-wrote s t (false, d) h = cc h

guarded-true :
    {D : Type 0} (ok takes : Bool) (disk : D) (result : Bool × D)
    → (if not ok then (false, disk) else if not takes then (false, disk) else result).0 ≡ true
    → (ok ≡ true)
      × ((if not ok then (false, disk) else if not takes then (false, disk) else result).1
          ≡ result.1)
guarded-true false takes disk result h = cc h
guarded-true true false disk result h = cc h
guarded-true true true disk result h = (refl, refl)

report_read :
    (r : TaskReport) (reports : String → List (String × Stored TaskReport)) (s t a : String)
    → task_report_ok r ≡ true
    → read_report s t a
        (put reports r.stage_id (map_set (reports r.stage_id) r.task_id (present r)))
      ≡ (if r.stage_id == s && r.task_id == t
          then if r.agent == a then valid r else invalid other_agent
          else read_report s t a reports)
report_read r reports s t a ok = elim (Bool-cases (r.stage_id == s)) [
  | inl same ↦
      let e = eq_of_test r.stage_id s same in
      let got = map_get-map_set (reports r.stage_id) r.task_id t (present r) in
      elim (Bool-cases (r.task_id == t)) [
        | inl task ↦ ground (arith, ok, same, task, got)
        | inr apart ↦ cc (same, apart, got, e)
      ]
  | inr apart ↦ cc apart
]

summary_read :
    (x : StageSummary) (summaries : String → Stored StageSummary) (s : String)
    → stage_summary_ok x ≡ true
    → read_summary s (put summaries x.stage_id (present x))
      ≡ (if x.stage_id == s then valid x else read_summary s summaries)
summary_read x summaries s ok = elim (Bool-cases (x.stage_id == s)) [
  | inl same ↦ ground (arith, ok, same)
  | inr apart ↦ cc apart
]

module _ {Text : Type 0} where
  -- The artifact of the task is a report that the schema takes, and no other is touched, as readers of any ids see it.
  abbrev pub IsReported :
      String → String → String → String → String → Disk Text → Disk Text → Type 0
  IsReported stage task s t a disk disk' =
      (r : TaskReport) × (task_report_ok r ≡ true)
      × (r.stage_id ≡ stage)
      × (r.task_id ≡ task)
      × (read_expected_stage_task_report s t a disk' ≡ (
          if stage == s && task == t
          then if r.agent == a then valid r else invalid other_agent
          else read_expected_stage_task_report s t a disk))

  -- The artifact of the stage is a summary that the schema takes, and no other is touched, as readers of any id see it.
  abbrev pub IsSummarized : String → String → Disk Text → Disk Text → Type 0
  IsSummarized stage s disk disk' =
      (x : StageSummary) × (stage_summary_ok x ≡ true)
      × (x.stage_id ≡ stage)
      × (read_expected_stage_summary s disk'
          ≡ (if stage == s then valid x else read_expected_stage_summary s disk))

module _ {Text : Type 0} (codec : Codec Text) where
  log_event-reports :
      (e : StageRunEvent) (outcome : Appended Text) (disk : Disk Text)
      → (log_event codec e outcome disk).1.reports ≡ disk.reports
  unfolding log_event
  log_event-reports e outcome disk = ground arith

  log_event-summaries :
      (e : StageRunEvent) (outcome : Appended Text) (disk : Disk Text)
      → (log_event codec e outcome disk).1.summaries ≡ disk.summaries
  unfolding log_event
  log_event-summaries e outcome disk = ground arith

  write_task_report-reports :
      (env : WriteEnv Text) (r : TaskReport) (opts : WriteOpts) (disk : Disk Text)
      → (write_task_report codec env r opts disk).0 ≡ true
      → (task_report_ok r ≡ true)
        × ((write_task_report codec env r opts disk).1.reports
            ≡ put disk.reports r.stage_id (map_set (disk.reports r.stage_id) r.task_id (present r)))
  unfolding write_task_report
  write_task_report-reports env r opts disk h =
      let (ok, same) = guarded-true (task_report_ok r) env.takes disk _ h in
      (ok, ap (λ d. d.reports) same ∙ log_event-reports _ env.appended _)

  write_stage_summary-summaries :
      (env : WriteEnv Text) (x : StageSummary) (opts : WriteOpts) (disk : Disk Text)
      → (write_stage_summary codec env x opts disk).0 ≡ true
      → (stage_summary_ok x ≡ true)
        × ((write_stage_summary codec env x opts disk).1.summaries
            ≡ put disk.summaries x.stage_id (present x))
  unfolding write_stage_summary
  write_stage_summary-summaries env x opts disk h =
      let (ok, same) = guarded-true (stage_summary_ok x) env.takes disk _ h in
      (ok, ap (λ d. d.summaries) same ∙ log_event-summaries _ env.appended _)

  write_task_report-IsReported :
      (env : WriteEnv Text) (r : TaskReport) (opts : WriteOpts) (disk : Disk Text)
      (stage task s t a : String)
      → (answer r.stage_id (some r.task_id) (write_task_report codec env r opts disk)).0
        ≡ wrote stage (some task)
      → IsReported stage task s t a disk
          (answer r.stage_id (some r.task_id) (write_task_report codec env r opts disk)).1
  unfolding read_expected_stage_task_report
  write_task_report-IsReported env r opts disk stage task s t a h =
      let (written, same_stage, same_task, state) =
        answer-wrote r.stage_id (some r.task_id) (write_task_report codec env r opts disk) h in
      let (ok, reports) = write_task_report-reports env r opts disk written in
      let task_same : r.task_id ≡ task = cc same_task in
      (
        r,
        ok,
        same_stage,
        task_same,
        cc (state, reports, same_stage, task_same, report_read r disk.reports s t a ok),
      )

  -- If task_write_report answers that it wrote the report of a task, the agent's check finds, for
  -- that stage and task, a report that the schema takes, valid for the agent that the report names
  -- and invalid for another; and for another stage or task it finds what it found before.
  pub task_write_report-wrote :
      (configured : Bool) (env : WriteEnv Text) (clock : Clock) (args : ReportArgs)
      (opts : CallOptions) (disk : Disk Text) (stage task : String) (s t a : String)
      → (task_write_report codec configured env clock args opts disk).0 ≡ wrote stage (some task)
      → IsReported stage task s t a disk
          (task_write_report codec configured env clock args opts disk).1
  unfolding task_write_report
  task_write_report-wrote false env clock args opts disk stage task s t a = λ h. cc h
  task_write_report-wrote true env clock args opts disk stage task s t a =
      let options : TaskReport → WriteOpts =
        λ r. record { agent_id = agent_id_from_opts opts; at = some r.completed_at } in
      need-cases (λ x. x.0 ≡ wrote stage (some task) → IsReported stage task s t a disk x.1)
        (report_to_write clock args opts)
        (λ r disk.
          answer r.stage_id (some r.task_id) (write_task_report codec env r (options r) disk))
        disk (λ h. cc h) (λ r. write_task_report-IsReported env r (options r) disk stage task s t a)

  write_stage_summary-IsSummarized :
      (env : WriteEnv Text) (x : StageSummary) (opts : WriteOpts) (disk : Disk Text)
      (stage s : String)
      → (answer x.stage_id none (write_stage_summary codec env x opts disk)).0 ≡ wrote stage none
      → IsSummarized stage s disk
          (answer x.stage_id none (write_stage_summary codec env x opts disk)).1
  unfolding read_expected_stage_summary
  write_stage_summary-IsSummarized env x opts disk stage s h =
      let (written, same_stage, same_task, state) =
        answer-wrote x.stage_id none (write_stage_summary codec env x opts disk) h in
      let (ok, summaries) = write_stage_summary-summaries env x opts disk written in
      (x, ok, same_stage, cc (state, summaries, same_stage, summary_read x disk.summaries s ok))

  -- If stage_write_summary answers that it wrote the summary of a stage, the manager's check finds
  -- for that stage a valid summary that the schema takes; and for another stage it finds what it
  -- found before.
  pub stage_write_summary-wrote :
      (configured : Bool) (env : WriteEnv Text) (clock : Clock) (args : SummaryArgs)
      (opts : CallOptions) (disk : Disk Text) (stage s : String)
      → (stage_write_summary codec configured env clock args opts disk).0 ≡ wrote stage none
      → IsSummarized stage s disk (stage_write_summary codec configured env clock args opts disk).1
  unfolding stage_write_summary
  stage_write_summary-wrote false env clock args opts disk stage s = λ h. cc h
  stage_write_summary-wrote true env clock args opts disk stage s =
      let options : StageSummary → WriteOpts =
        λ x. record { agent_id = agent_id_from_opts opts; at = some x.completed_at } in
      need-cases (λ x. x.0 ≡ wrote stage none → IsSummarized stage s disk x.1)
        (summary_to_write clock args opts)
        (λ x disk. answer x.stage_id none (write_stage_summary codec env x (options x) disk)) disk
        (λ h. cc h) (λ x. write_stage_summary-IsSummarized env x (options x) disk stage s)
