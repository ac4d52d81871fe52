-- ===== src/Store/StageRuns/Status.antt =====
-- How far a stage has come, by the status of its run, from the documents and events that there are.
use saivage.Base.{
  sort, insert, last, all-sort, ℕ, String, ◌≡◌, refl, ◌∙◌, Bool, true, false, not, ◌||◌, Option,
  none, some, List, [], ◌∷◌, ◌++◌, arith, map, filter, any, all, if◌then◌else◌, ◌⊎◌, inl, inr,
}
use saivage.Plan.Document.{Stage, CompletedStage}
use saivage.Store.EventLog.{StageRunEvent}
use saivage.Store.Artifacts.{TaskList, TaskReport, StageSummary}
use saivage.Store.StageRuns.Runs.{
  StageRunStatus, planned, running, tasks_ready, summarized, ended, StageRun, Orders, stage_run,
  compat_report, is_none, is_completion, is_empty, latest_completion_event, derive_status,
  derive_compatibility_events, result_of,
}

unfoldable pub rank_of_status : StageRunStatus → ℕ
rank_of_status planned = 0
rank_of_status running = 0
rank_of_status tasks_ready = 1
rank_of_status summarized = 2
rank_of_status (ended result) = 3

-- 0 where there is no run
unfoldable pub rank_of : Option StageRun → ℕ
unfolding rank_of_status
rank_of none = 0
rank_of (some run) = rank_of_status run.status

unfoldable pub level :
    Option CompletedStage → List StageRunEvent → Option StageSummary → Option TaskList → ℕ
level completed events summary tasks =
    if not (is_none completed) || any is_completion events
    then 3
    else if not (is_none summary)
    then 2
    else if not (is_none tasks)
    then 1
    else 0

is_empty-sort :
    {A : Type 0} (leq : A → A → Bool) (xs : List A) → is_empty (sort leq xs) ≡ is_empty xs
unfolding sort
is_empty-sort leq [] = refl
is_empty-sort leq (x ∷ xs) = elim (sort leq xs) as (λ ys. is_empty (insert leq x ys) ≡ false) [
  | [] ↦ refl
  | y ∷ ys ↦ ground arith
]

-- The last element is there if and only if any is, and has what all have.
last_lem :
    {A : Type 0} (p : A → Bool) (xs : List A)
    → all p xs ≡ true
    → ((is_empty xs ≡ true) × (last xs ≡ none))
      ⊎ ((is_empty xs ≡ false) × ((x : A) × (last xs ≡ some x) × (p x ≡ true)))
unfolding last
last_lem p [] h = inl (refl, refl)
last_lem p (x ∷ []) h = inr (refl, (x, refl, ground arith))
last_lem p (x ∷ y ∷ ys) h = elim (last_lem p (y ∷ ys) (ground arith)) [
  | inl (e, n) ↦ cc
  | inr (e, (z, l, q)) ↦ inr (refl, (z, l, q))
]

all-filter : {A : Type 0} (p : A → Bool) (xs : List A) → all p (filter p xs) ≡ true
all-filter p [] = refl
all-filter p (x ∷ xs) = ground (arith, all-filter p xs)

is_empty-filter :
    {A : Type 0} (p : A → Bool) (xs : List A) → is_empty (filter p xs) ≡ not (any p xs)
is_empty-filter p [] = refl
is_empty-filter p (x ∷ xs) = ground (arith, is_empty-filter p xs)

is_completion-result : (e : StageRunEvent) → is_completion e ≡ true → is_none e.result ≡ false
is_completion-result e h = ground arith

latest_completion_event_lem :
    (orders : Orders) (es : List StageRunEvent)
    → is_none (result_of (latest_completion_event orders es)) ≡ not (any is_completion es)
unfolding latest_completion_event
latest_completion_event_lem orders es =
    let leq : StageRunEvent → StageRunEvent → Bool = λ a b. orders.locale a.at b.at in
    let found = filter is_completion es in
    let sorted = all-sort is_completion leq found ∙ all-filter is_completion es in
    let emptiness = is_empty-sort leq found ∙ is_empty-filter is_completion es in
    elim (last_lem is_completion (sort leq found) sorted) [
      | inl (e, n) ↦ cc
      | inr (e, (x, l, c)) ↦ cc (is_completion-result x c)
    ]

derive_status_lem :
    (orders : Orders) (completed : Option CompletedStage) (es : List StageRunEvent)
    (summary : Option StageSummary) (tasks : Option TaskList)
    → rank_of_status (derive_status completed (latest_completion_event orders es) summary tasks)
      ≡ level completed es summary tasks
unfolding derive_status rank_of_status level
derive_status_lem orders (some c) es summary tasks = refl
derive_status_lem orders none es summary tasks =
    ground (arith, latest_completion_event_lem orders es)

compat-reports :
    (id : String) (reports : List TaskReport) (es : List StageRunEvent)
    → any is_completion (map (compat_report id) reports ++ es) ≡ any is_completion es
compat-reports id [] es = refl
compat-reports id (r ∷ reports) es = compat-reports id reports es

compat-any :
    (id : String) (tasks : Option TaskList) (reports : List TaskReport)
    (summary : Option StageSummary) (completed : Option CompletedStage)
    → any is_completion (derive_compatibility_events id tasks reports summary completed)
      ≡ not (is_none completed)
unfolding derive_compatibility_events
compat-any id none reports none none = compat-reports id reports _
compat-any id none reports none (some c) = compat-reports id reports _
compat-any id none reports (some s) none = compat-reports id reports _
compat-any id none reports (some s) (some c) = compat-reports id reports _
compat-any id (some t) reports none none = compat-reports id reports _
compat-any id (some t) reports none (some c) = compat-reports id reports _
compat-any id (some t) reports (some s) none = compat-reports id reports _
compat-any id (some t) reports (some s) (some c) = compat-reports id reports _

pub stage_run-level :
    (orders : Orders) (id : String) (definition : Option Stage) (completed : Option CompletedStage)
    (tasks : Option TaskList) (summary : Option StageSummary) (events : List StageRunEvent)
    (reports : List TaskReport)
    → rank_of_status (stage_run orders id definition completed tasks summary events reports).status
      ≡ level completed events summary tasks
unfolding stage_run level
stage_run-level orders id definition completed tasks summary [] reports = ground (
  arith,
  derive_status_lem orders completed
      (derive_compatibility_events id tasks reports summary completed) summary tasks,
  compat-any id tasks reports summary completed,
)
stage_run-level orders id definition completed tasks summary (e ∷ es) reports =
    derive_status_lem orders completed (e ∷ es) summary tasks
