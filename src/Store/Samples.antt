-- ===== src/Store/Samples.antt =====
-- A text as a list of pieces, a log and a disk, and runs of the store on them.
use saivage.Base.{ℕ, String, ◌≡◌, ◌≤◌, refl, true, Option, none, some, List, [], ◌∷◌, ◌++◌, ◌==◌}
use saivage.Plan.Document.{completed}
use saivage.Store.Artifacts.{TaskList, task_list_ok}
use saivage.Store.EventLog.{
  StageRunEvent, stage_started, event_ok, LineReading, blank, bad_json, event, Codec, Lawful,
  LogFile, Appended, written, refused, torn, append_event, append_all, read_events,
}
use saivage.Store.EventLog.Durable.{all_whole, append_all-read_events}
use saivage.Store.EventLog.Torn.{append_event-torn}
use saivage.Store.StageRuns.{Disk, missing, WriteEnv, WriteOpts}
use saivage.Store.StageRuns.Runs.{Orders, StageRun}
use saivage.Store.StageRuns.Reads.{get_stage_run}
use saivage.Store.StageRuns.Status.{rank_of}
use saivage.Store.StageRuns.Calls.{StoreCall, tasks_call, completion_call, store_run}
use saivage.Store.StageRuns.Progress.{store_run-rank}

-- a piece of a line: a whole event, or less
pub data Piece : Type 0 where
  whole : StageRunEvent → Piece
  part : Piece

abbrev read_pieces : List Piece → LineReading
read_pieces [] = blank
read_pieces (whole e ∷ []) = event e
read_pieces (whole e ∷ p ∷ ps) = bad_json
read_pieces (part ∷ ps) = bad_json

abbrev pub pieces : Codec (List Piece)
pieces = record {
  empty = [];
  join = λ s t. s ++ t;
  print = λ e. whole e ∷ [];
  read_line = read_pieces;
}

read_join_pieces :
    (t : List Piece) (e : StageRunEvent)
    → read_pieces t ≡ bad_json
    → read_pieces (t ++ whole e ∷ []) ≡ bad_json
read_join_pieces [] e h = cc
read_join_pieces (whole d ∷ []) e h = refl
read_join_pieces (whole d ∷ p ∷ ps) e h = refl
read_join_pieces (part ∷ ps) e h = refl

pub pieces-Lawful : Lawful pieces
pieces-Lawful = record {
  join_empty = λ t. refl;
  empty_blank = refl;
  read_print = λ e ok. refl;
  read_join = read_join_pieces;
}

abbrev started : String → StageRunEvent
started id = record {
  event_id = id;
  type = stage_started;
  stage_id = "a";
  at = "t";
  task_id = none;
  task_count = none;
  status = none;
  result = none;
  agent_id = none;
  outcome_ok = none;
}

abbrev empty_log : LogFile (List Piece)
empty_log = record { lines = []; tail = [] }

abbrev calls : List (StageRunEvent × Appended (List Piece))
calls = (started "1", written) ∷ (started "2", refused) ∷ (started "3", written) ∷ []

read_back :
    read_events pieces (append_all pieces empty_log calls) ≡ some (started "1" ∷ started "3" ∷ [])
unfolding append_all read_events
read_back = refl

no_events : read_events pieces empty_log ≡ some []
unfolding read_events
no_events = refl

calls_whole : all_whole calls ≡ true
unfolding event_ok
calls_whole = refl

append_all-read_events_example :
    read_events pieces (append_all pieces empty_log calls) ≡ some (started "1" ∷ started "3" ∷ [])
append_all-read_events_example =
    append_all-read_events pieces pieces-Lawful empty_log [] calls refl no_events calls_whole
      (refl, (refl, tt))

append_event-torn_example :
    (read_events pieces (append_event pieces empty_log (started "1") (torn (part ∷ [])))
      ≡ read_events pieces empty_log)
    × (read_events pieces (
          append_all pieces
            (append_event pieces empty_log (started "1") (torn (part ∷ [])))
            ((started "2", written) ∷ calls))
        ≡ none)
append_event-torn_example =
    append_event-torn pieces pieces-Lawful empty_log (started "1") (started "2") (part ∷ []) calls
      refl refl

abbrev orders : Orders
orders = record { locale = λ s t. s == t; units = λ s t. s == t }

abbrev pub disk : Disk (List Piece)
disk = record {
  plan = missing;
  stage_dirs = [];
  tasks = λ id. missing;
  reports = λ id. [];
  summaries = λ id. missing;
  log = empty_log;
}

abbrev pub env : String → WriteEnv (List Piece)
env id = record {
  now = "t";
  takes = true;
  event_id = id;
  appended = written;
  second_id = "x";
  second_appended = written;
}

abbrev opts : WriteOpts
opts = record { agent_id = none; at = none }

abbrev list : TaskList
list = record { stage_id = "a"; created_at = "t"; updated_at = "t"; tasks = [] }

abbrev store_calls : List (StoreCall (List Piece))
store_calls =
    tasks_call (env "1") list opts ∷ completion_call (env "2") "a" completed (some true) opts ∷ []

no_run : get_stage_run pieces orders "a" disk ≡ some none
unfolding get_stage_run read_events
no_run = refl

abbrev rank_at_end : Option (Option StageRun) → ℕ
rank_at_end none = 0
rank_at_end (some run) = rank_of run

completed_at_end :
    rank_at_end (get_stage_run pieces orders "a" (store_run pieces store_calls disk)) ≡ 3
unfolding get_stage_run store_run rank_of event_ok task_list_ok read_events append_event
completed_at_end = refl

store_run-rank_example :
    (later : Option StageRun) × (get_stage_run pieces orders "a" (store_run pieces store_calls disk)
      ≡ some later)
    × (rank_of none ≤ rank_of later)
store_run-rank_example =
    store_run-rank pieces pieces-Lawful orders "a" store_calls disk none refl refl no_run
