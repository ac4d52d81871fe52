-- ===== src/Store/StageRuns/Changed.antt =====
-- What a reading becomes when a document is written or an event is appended.
use saivage.Base.{
  String, ◌≡◌, ◌≤◌, refl, Bool, true, false, ◌||◌, Option, some, List, [], ◌∷◌, ◌++◌, arith, inl,
  inr, Bool-cases, if◌then◌else◌, any, any-append, map_set, map_delete, filter-append, ◌==◌,
  eq_of_test, elem,
}
use saivage.Plan.Document.{CompletedStage}
use saivage.Store.EventLog.{StageRunEvent, of_stage, event_ids}
use saivage.Store.EventLog.Durable.{with_new}
use saivage.Store.Artifacts.{TaskList, TaskReport, task_report_ok, StageSummary}
use saivage.Store.StageRuns.Runs.{is_completion, is_none}
use saivage.Store.StageRuns.{Stored, present, put}
use saivage.Store.StageRuns.Reads.{read_doc, read_task_reports, keep_some}
use saivage.Store.StageRuns.Status.{level}
use saivage.Store.StageRuns.Readable.{bind-some}

pub level_mono :
    (completed : Option CompletedStage) (es more : List StageRunEvent) (s s' : Option StageSummary)
    (t t' : Option TaskList)
    → (any is_completion es ≡ true → any is_completion more ≡ true)
    → (is_none s' ≡ true → is_none s ≡ true)
    → (is_none t' ≡ true → is_none t ≡ true)
    → level completed es s t ≤ level completed more s' t'
unfolding level
level_mono completed es more s s' t t' he hs ht = ground arith

pub of_stage-with_new :
    (id : String) (es : List StageRunEvent) (e : StageRunEvent)
    → any is_completion (of_stage id es) ≡ true
    → any is_completion (of_stage id (with_new [] es e)) ≡ true
unfolding of_stage
of_stage-with_new id es e h =
    elim (elem e.event_id (event_ids es))
      as (λ seen. any is_completion (of_stage id (if seen then es else es ++ e ∷ [])) ≡ true) [
        | true ↦ h
        | false ↦ ground (
          arith,
          h,
          filter-append (λ x. id == "" || x.stage_id == id) es (e ∷ []),
          any-append is_completion (of_stage id es) (of_stage id (e ∷ [])),
        )
      ]

pub put-read_doc :
    {A : Type 0} (ok : A → Bool) (files : String → Stored A) (i id : String) (x : A)
    {old : Option A}
    → ok x ≡ true
    → read_doc ok (files id) ≡ some old
    → (new : Option A) × (read_doc ok (put files i (present x) id) ≡ some new)
      × (is_none new ≡ true → is_none old ≡ true)
unfolding read_doc
put-read_doc {A} ok files i id x {old} h r =
    elim (i == id)
      as (λ b.
        (new : Option A) × (read_doc ok (if b then present x else files id) ≡ some new)
        × (is_none new ≡ true → is_none old ≡ true)) [
          | true ↦ (some x, cc (h), λ n. cc)
          | false ↦ (old, r, λ n. n)
        ]

map_delete-read_task_reports :
    (files : List (String × Stored TaskReport)) (k : String) {old : List TaskReport}
    → read_task_reports files ≡ some old
    → (new : List TaskReport) × (read_task_reports (map_delete files k) ≡ some new)
unfolding read_task_reports
map_delete-read_task_reports [] k h = ([], refl)
map_delete-read_task_reports ((i, file) ∷ files) k h =
    let (report, p, h1) = bind-some (read_doc task_report_ok file) _ h in
    let (more, q, h2) = bind-some (read_task_reports files) _ h1 in
    let (new, n) = map_delete-read_task_reports files k q in
    elim (i == k)
      as (λ b.
        (all_new : List TaskReport) × (read_task_reports
            (if b then map_delete files k else (i, file) ∷ map_delete files k)
          ≡ some all_new)) [ true ↦ (new, n) | false ↦ (keep_some report new, cc (p, n)) ]

taken-read_doc :
    (x : TaskReport) → task_report_ok x ≡ true → read_doc task_report_ok (present x) ≡ some (some x)
unfolding read_doc
taken-read_doc x h = cc h

pub put-read_task_reports :
    (files : String → List (String × Stored TaskReport)) (i id k : String) (x : TaskReport)
    {old : List TaskReport}
    → task_report_ok x ≡ true
    → read_task_reports (files id) ≡ some old
    → (new : List TaskReport) × (read_task_reports
          (put files i (map_set (files i) k (present x)) id)
        ≡ some new)
unfolding read_task_reports
put-read_task_reports files i id k x {old} h r = elim (Bool-cases (i == id)) [
  | inl same ↦
      let r' : read_task_reports (files i) ≡ some old = cc (r, eq_of_test i id same) in
      let (new, n) = map_delete-read_task_reports (files i) k r' in
      (x ∷ new, cc (same, n, taken-read_doc x h))
  | inr other ↦ (old, cc (other, r))
]
