-- ===== src/Runtime/Samples.antt =====
-- The theorems on src/runtime at concrete inputs.
use saivage.Base.{
  ◌*◌, ◌≤◌, String, ◌≡◌, refl, true, false, none, some, List, [], ◌∷◌, all, any, elem,
}
use saivage.Runtime.Dispatcher.{returned, ToolCall, DispatchResult, Dispatcher, process_tool_calls}
use saivage.Runtime.Dispatcher.Batch.{count_calls, count_results, process_tool_calls-count}
use saivage.Runtime.Dispatcher.Spawned.{
  count_role, at_most, not_signalled, process_tool_calls-spawned,
}
use saivage.Runtime.Supervisor.{
  SupervisorConfig, Agent, Event, start, parsed, unreadable, tick, verdict, initial, watch,
  select_abort_target,
}
use saivage.Runtime.Supervisor.Cancels.{count_cancels, count_stuck, watch-cancels}
use saivage.Runtime.Supervisor.Target.{Selected, select_abort_target-Selected}
use saivage.Runtime.Notes.{
  UserNote, NoteManager, NoteEnv, is_planner_self_note, pull_deliverables, reset_delivered,
  note_ids,
}
use saivage.Runtime.Notes.Calls.{
  NoteCall, pull_call, acknowledge_all_call, cleanup_call, delivered_by,
}
use saivage.Runtime.Notes.Once.{pull_deliverables-once}
use saivage.Runtime.Notes.Lasts.{is_lasting, Lasts}
use saivage.Runtime.Notes.Kept.{note_run, pull_deliverables-again}

abbrev dispatcher : Dispatcher
dispatcher = record { tools = "read_file" ∷ []; has_spawner = true }

abbrev call : String → String → ToolCall
call id name = record {
  id = id;
  name = name;
  signalled = false;
  local_answer = returned;
  child_fails = false;
}

abbrev calls : List ToolCall
calls = call "a" "run_coder" ∷ call "b" "read_file" ∷ call "c" "run_coder" ∷ []

abbrev batch : DispatchResult
batch = record {
  tool_results =
      record { tool_use_id = "b"; is_error = false }
      ∷ record { tool_use_id = "c"; is_error = true }
      ∷ record { tool_use_id = "a"; is_error = false }
      ∷ [];
  aborted = false;
  spawned = call "a" "run_coder" ∷ [];
}

batch_returns : (process_tool_calls dispatcher 2 calls).0 ≡ some batch
unfolding process_tool_calls
batch_returns = refl

process_tool_calls-count_example : count_results "c" batch.tool_results ≡ count_calls "c" calls
process_tool_calls-count_example = process_tool_calls-count dispatcher 2 calls "c" batch_returns

quiet : all not_signalled calls ≡ true
quiet = refl

process_tool_calls-spawned_example :
    count_role "coder" batch.spawned ≡ at_most "coder" (count_role "coder" calls)
process_tool_calls-spawned_example =
    process_tool_calls-spawned dispatcher 2 calls "coder" refl quiet batch_returns

abbrev config : SupervisorConfig
config = record { enabled = true; has_model = true; threshold = 2 }

abbrev registry : List Agent
registry =
    record { agent_id = "m"; role = "manager" } ∷ record { agent_id = "r"; role = "reviewer" } ∷ []

abbrev events : List Event
events =
    start ∷ tick ∷ verdict (parsed (some true)) registry ∷ tick ∷ verdict unreadable registry ∷ []

watch-cancels_example :
    config.threshold * count_cancels (watch config initial events) ≤ count_stuck events
watch-cancels_example = watch-cancels config events

select_abort_target-Selected_example : Selected registry (select_abort_target registry)
select_abort_target-Selected_example = select_abort_target-Selected registry

abbrev note : UserNote
note = record {
  id = "n1";
  channel = "web";
  session_id = "s1";
  content = "use tabs";
  created_at = "2026-05-01T00:00:00Z";
  permanent = true;
  urgent = false;
  acknowledged_at = none;
}

abbrev outside : NoteEnv
outside = record {
  now = "2026-05-02T00:00:00Z";
  now_ms = 9;
  time_of = λ text. some 1;
  not_after = λ a b. true;
  writes = λ name. true;
  removes = λ name. true;
}

abbrev manager : NoteManager
manager = record { files = ("n1", some note) ∷ ("draft", none) ∷ []; delivered = [] }

abbrev note_calls : List (NoteEnv × NoteCall)
note_calls =
    (outside, acknowledge_all_call)
    ∷ (outside, pull_call)
    ∷ (outside, cleanup_call 3)
    ∷ (outside, pull_call)
    ∷ []

note_pulled : elem "n1" (note_ids (pull_deliverables outside manager).0) ≡ true
unfolding pull_deliverables
note_pulled = refl

pull_deliverables-once_example :
    elem "n1" (delivered_by note_calls (pull_deliverables outside manager).1) ≡ false
pull_deliverables-once_example =
    pull_deliverables-once outside "n1" note_calls manager refl note_pulled refl

note-Lasts : Lasts "n1" "use tabs" manager
unfolding is_planner_self_note
note-Lasts = (note, refl, refl)

pull_deliverables-again_example :
    any
      (is_lasting "n1" "use tabs")
      (pull_deliverables outside (reset_delivered (note_run note_calls manager))).0
    ≡ true
pull_deliverables-again_example =
    pull_deliverables-again outside "n1" "use tabs" note_calls manager note-Lasts refl
