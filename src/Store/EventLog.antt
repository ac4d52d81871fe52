-- ===== src/Store/EventLog.antt =====
-- The log of events of src/store/stage-run-store.ts: `appendEvent` and `readEvents`. A text is of any type;
-- `JSON.stringify`, and `trim`, `JSON.parse` and the schema, are operations on it.
pub mod Durable
pub mod Torn
use saivage.Base.{
  ℕ, String, Bool, true, false, not, ◌&&◌, ◌||◌, Option, none, some, List, [], ◌∷◌, ◌++◌, ◌≡◌,
  filter, elem, map, if◌then◌else◌, ◌==◌,
}
use saivage.Plan.Document.{StageResult}
use saivage.Store.Artifacts.{ReportStatus}

-- `type`
pub data EventType : Type 0 where
  stage_started tasks_written task_started task_report_written : EventType
  stage_summary_written stage_completed knowledge_archived : EventType
  other : String → EventType

-- `StageRunEvent`
pub record StageRunEvent : Type 0 where
  pub event_id : String
  pub type : EventType
  pub stage_id : String
  pub at : String
  pub task_id : Option String
  pub task_count : Option ℕ
  pub status : Option ReportStatus
  pub result : Option StageResult
  pub agent_id : Option String
  pub outcome_ok : Option Bool

-- the types that have a constructor of their own
abbrev type_names : List String
type_names =
    "stage_started" ∷ "tasks_written" ∷ "task_started" ∷ "task_report_written"
    ∷ "stage_summary_written" ∷ "stage_completed" ∷ "knowledge_archived" ∷ []

-- another text is not empty and none of these
abbrev type_ok : EventType → Bool
type_ok (other text) = not (text == "") && not (elem text type_names)
type_ok _ = true

-- `StageRunEventSchema.parse` succeeds.
unfoldable pub event_ok : StageRunEvent → Bool
event_ok e = not (e.event_id == "") && type_ok e.type && not (e.stage_id == "") && not (e.at == "")

-- what a line is: blank after `trim`, no JSON, JSON of another shape, or an event
pub data LineReading : Type 0 where
  blank bad_json bad_shape : LineReading
  event : StageRunEvent → LineReading

pub record Codec (Text : Type 0) : Type 0 where
  pub empty : Text
  pub join : Text → Text → Text
  pub print : StageRunEvent → Text
  pub read_line : Text → LineReading

-- What the store relies on: an event is read back from its line, and a line that is not JSON stays so
-- when an event is written behind it.
pub record Lawful {Text : Type 0} (codec : Codec Text) : Type 0 where
  pub join_empty : (t : Text) → codec.join codec.empty t ≡ t
  pub empty_blank : codec.read_line codec.empty ≡ blank
  pub read_print :
      (e : StageRunEvent) → event_ok e ≡ true → codec.read_line (codec.print e) ≡ event e
  pub read_join :
      (t : Text) (e : StageRunEvent)
      → codec.read_line t ≡ bad_json
      → codec.read_line (codec.join t (codec.print e)) ≡ bad_json

-- the file: the lines that a newline ends, and what stands behind the last newline
pub record LogFile (Text : Type 0) : Type 0 where
  pub lines : List Text
  pub tail : Text

-- how an append ends: whole, not at all, or with a part of the line
pub data Appended (Text : Type 0) : Type 0 where
  written refused : Appended Text
  torn : Text → Appended Text

abbrev pub before : StageRunEvent → Option (List StageRunEvent) → Option (List StageRunEvent)
before e none = none
before e (some es) = some (e ∷ es)

abbrev pub event_ids : List StageRunEvent → List String
event_ids = map (λ e. e.event_id)

-- what the last line, which no newline ends, adds to the events: it may be cut off
abbrev pub read_last : List String → LineReading → Option (List StageRunEvent)
read_last seen blank = some []
read_last seen bad_json = some []
read_last seen bad_shape = none
read_last seen (event e) = some (if elem e.event_id seen then [] else e ∷ [])

-- the loop of `readEvents` over the readings of the lines, with the ids in `seen`; `none` where it throws
unfoldable pub read_from :
    List String → List LineReading → LineReading → Option (List StageRunEvent)
read_from seen [] last = read_last seen last
read_from seen (blank ∷ rs) last = read_from seen rs last
read_from seen (bad_json ∷ rs) last = none
read_from seen (bad_shape ∷ rs) last = none
read_from seen (event e ∷ rs) last = elim (elem e.event_id seen) [
  | true ↦ read_from seen rs last
  | false ↦ before e (read_from (e.event_id ∷ seen) rs last)
]

module _ {Text : Type 0} (codec : Codec Text) where
  -- `readEvents` with no `stageId`
  unfoldable pub read_events : LogFile Text → Option (List StageRunEvent)
  unfolding read_from
  read_events file = read_from [] (map codec.read_line file.lines) (codec.read_line file.tail)

  -- `appendEvent` on an event that its schema takes
  unfoldable pub append_event : LogFile Text → StageRunEvent → Appended Text → LogFile Text
  append_event file e written = record {
    lines = file.lines ++ codec.join file.tail (codec.print e) ∷ [];
    tail = codec.empty;
  }
  append_event file e refused = file
  append_event file e (torn part) = record file { tail = codec.join file.tail part }

  -- appends one after the other, as `writeQueue` orders them, with the way each ends
  unfoldable pub append_all : LogFile Text → List (StageRunEvent × Appended Text) → LogFile Text
  unfolding append_event
  append_all file [] = file
  append_all file ((e, outcome) ∷ es) = append_all (append_event file e outcome) es

-- what `readEvents` keeps for a `stageId`
unfoldable pub of_stage : String → List StageRunEvent → List StageRunEvent
of_stage id es = filter (λ e. id == "" || e.stage_id == id) es
