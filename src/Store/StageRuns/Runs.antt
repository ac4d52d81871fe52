-- ===== src/Store/StageRuns/Runs.antt =====
-- What `getStageRun` makes of the documents and events of a stage, and the orders that it sorts by.
use saivage.Base.{
  sort, last, ℕ, String, Bool, true, false, not, ◌&&◌, Option, none, some, List, [], ◌∷◌, ◌++◌, map,
  filter, length, if◌then◌else◌, ◌==◌, concat,
}
use saivage.Plan.Document.{Stage, CompletedStage, StageResult}
use saivage.Store.EventLog.{
  StageRunEvent, EventType, tasks_written, task_report_written, stage_summary_written,
  stage_completed,
}
use saivage.Store.Artifacts.{TaskList, TaskReport, StageSummary}

-- `StageRunStatus`; `running` is never given
pub data StageRunStatus : Type 0 where
  planned running tasks_ready summarized : StageRunStatus
  ended : StageResult → StageRunStatus

-- `StageRun`
pub record StageRun : Type 0 where
  pub stage_id : String
  pub definition : Option Stage
  pub status : StageRunStatus
  pub tasks : Option TaskList
  pub reports : List TaskReport
  pub summary : Option StageSummary
  pub started_at : Option String
  pub completed_at : Option String
  pub updated_at : String
  pub events : List StageRunEvent

-- `StageRunSummary`
pub record StageRunSummary : Type 0 where
  pub stage_id : String
  pub status : StageRunStatus
  pub task_count : ℕ
  pub report_count : ℕ
  pub updated_at : String

-- The first is not after the second, by `localeCompare` and by code units.
pub record Orders : Type 0 where
  pub locale : String → String → Bool
  pub units : String → String → Bool

abbrev pub is_none : {A : Type 0} → Option A → Bool
is_none none = true
is_none (some a) = false

abbrev pub field : {A B : Type 0} → (A → B) → Option A → Option B
field f none = none
field f (some a) = some (f a)

-- JavaScript's operator `??`
infixr 20 ◌or_else◌
abbrev pub ◌or_else◌ : {A : Type 0} → Option A → Option A → Option A
none or_else b = b
some a or_else b = some a

abbrev pub is_completion : StageRunEvent → Bool
is_completion e = elim e.type [ stage_completed ↦ not (is_none e.result) | _ ↦ false ]

-- `latestCompletionEvent`
unfoldable pub latest_completion_event : Orders → List StageRunEvent → Option StageRunEvent
unfolding sort last
latest_completion_event orders es =
    last (sort (λ a b. orders.locale a.at b.at) (filter is_completion es))

abbrev compat_event : List String → EventType → String → String → StageRunEvent
compat_event parts type stage_id at = record {
  event_id = concat ("compat:" ∷ stage_id ∷ parts);
  type = type;
  stage_id = stage_id;
  at = at;
  task_id = none;
  task_count = none;
  status = none;
  result = none;
  agent_id = none;
  outcome_ok = none;
}

abbrev compat_tasks : String → TaskList → StageRunEvent
compat_tasks id list = record (compat_event (":tasks" ∷ []) tasks_written id list.updated_at) {
  task_count = some (length list.tasks);
}

abbrev pub compat_report : String → TaskReport → StageRunEvent
compat_report id report =
    record (compat_event (":report:" ∷ report.task_id ∷ []) task_report_written id
      report.completed_at) { task_id = some report.task_id; status = some report.status }

abbrev compat_summary : String → StageSummary → StageRunEvent
compat_summary id s =
    record (compat_event (":summary" ∷ []) stage_summary_written id s.completed_at) {
      result = some s.result;
    }

abbrev compat_completion : String → CompletedStage → StageRunEvent
compat_completion id c =
    record (compat_event (":completed" ∷ []) stage_completed id c.completed_at) {
      result = some c.result;
    }

abbrev to_list : {A : Type 0} → Option A → List A
to_list none = []
to_list (some a) = a ∷ []

-- `deriveCompatibilityEvents`
unfoldable pub derive_compatibility_events :
    String
    → Option TaskList
    → List TaskReport
    → Option StageSummary
    → Option CompletedStage
    → List StageRunEvent
derive_compatibility_events id tasks reports summary completed =
    to_list (field (compat_tasks id) tasks)
    ++ (map (compat_report id) reports
        ++ (to_list (field (compat_summary id) summary)
            ++ to_list (field (compat_completion id) completed)))

abbrev pub result_of : Option StageRunEvent → Option StageResult
result_of none = none
result_of (some e) = e.result

-- `deriveStatus`
unfoldable pub derive_status :
    Option CompletedStage
    → Option StageRunEvent
    → Option StageSummary
    → Option TaskList
    → StageRunStatus
derive_status (some c) e summary tasks = ended c.result
derive_status none e summary tasks = elim (result_of e) [
  | some result ↦ ended result
  | none ↦ elim summary [
    | some s ↦ summarized
    | none ↦ if is_none tasks then planned else tasks_ready
  ]
]

-- `isCompletedStatus`
unfoldable pub is_completed_status : StageRunStatus → Bool
is_completed_status (ended result) = true
is_completed_status _ = false

abbrev pub is_empty : {A : Type 0} → List A → Bool
is_empty [] = true
is_empty (x ∷ xs) = false

abbrev pub text_or : Option String → String → String
text_or none fallback = fallback
text_or (some text) fallback = text

abbrev started_at_of : Option Stage → Option String
started_at_of none = none
started_at_of (some stage) = stage.started_at

abbrev is_text : Option String → Bool
is_text none = false
is_text (some text) = not (text == "")

-- `latestTimestamp`; the epoch is its value on no texts
unfoldable pub latest_timestamp : Orders → List (Option String) → String
unfolding sort last
latest_timestamp orders values =
    text_or (last (sort orders.units (map (λ v. text_or v "") (filter is_text values))))
      "1970-01-01T00:00:00.000Z"

-- the object that `getStageRun` returns
unfoldable pub stage_run :
    Orders
    → String
    → Option Stage
    → Option CompletedStage
    → Option TaskList
    → Option StageSummary
    → List StageRunEvent
    → List TaskReport
    → StageRun
unfolding derive_compatibility_events latest_completion_event derive_status latest_timestamp
stage_run orders id definition completed tasks summary events reports =
    let effective =
      if is_empty events
      then derive_compatibility_events id tasks reports summary completed
      else events in
    let completion = latest_completion_event orders effective in
    record {
      stage_id = id;
      definition = definition;
      status = derive_status completed completion summary tasks;
      tasks = tasks;
      reports = reports;
      summary = summary;
      started_at =
          field (λ s. s.started_at) summary
          or_else field (λ c. c.started_at) completed
          or_else started_at_of definition;
      completed_at =
          field (λ c. c.completed_at) completed
          or_else field (λ e. e.at) completion
          or_else field (λ s. s.completed_at) summary;
      updated_at = latest_timestamp orders (
          map (λ e. some e.at) effective
          ++ (field (λ s. s.completed_at) summary
              ∷ field (λ c. c.completed_at) completed
              ∷ field (λ t. t.updated_at) tasks
              ∷ map (λ r. some r.completed_at) reports));
      events = effective;
    }

abbrev pub is_unknown :
    Option Stage
    → Option CompletedStage
    → Option TaskList
    → Option StageSummary
    → List TaskReport
    → List StageRunEvent
    → Bool
is_unknown definition completed tasks summary reports events =
    is_none definition
    && is_none completed
    && is_none tasks
    && is_none summary
    && is_empty reports
    && is_empty events
