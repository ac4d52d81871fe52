-- ===== src/Runtime/Dispatcher.antt =====
-- `Dispatcher` of src/runtime/dispatcher.ts. What the signal, the tools and the children answer is part of
-- a call; the texts of the results are left out.
pub mod Batch
pub mod Spawned
use saivage.Base.{
  ℕ, zero, suc, ◌+◌, String, Bool, true, false, not, ◌||◌, ◌&&◌, Option, none, some, List, [], ◌∷◌,
  ◌++◌, map, filter, elem, leb, if◌then◌else◌, ◌==◌,
}
use saivage.Runtime.Roster.{dispatch_role, is_concurrency_limited}

-- what a local tool does: it returns, it throws, or it throws an error that ends the agent
pub data LocalAnswer : Type 0 where
  returned threw fatal : LocalAnswer

-- `ToolCallResult`, with what the call finds: whether the signal is set when its turn comes, what its
-- local tool answers, and whether its child's result is an error (a failure, an abort, or an exception)
pub record ToolCall : Type 0 where
  pub id : String
  pub name : String
  pub signalled : Bool
  pub local_answer : LocalAnswer
  pub child_fails : Bool

-- `ToolCallResultEntry`
pub record ResultEntry : Type 0 where
  pub tool_use_id : String
  pub is_error : Bool

-- `DispatchResult`, with the calls for which a child has been spawned
pub record DispatchResult : Type 0 where
  pub tool_results : List ResultEntry
  pub aborted : Bool
  pub spawned : List ToolCall

-- the names of the runtime's tools, and whether a spawner is set
pub record Dispatcher : Type 0 where
  pub tools : List String
  pub has_spawner : Bool

abbrev pub error_for : ToolCall → ResultEntry
error_for c = record { tool_use_id = c.id; is_error = true }

abbrev is_role : Option String → Bool
is_role none = false
is_role (some role) = true

-- `DISPATCH_TOOLS.has(tc.name)`
unfoldable pub is_dispatch : ToolCall → Bool
unfolding dispatch_role
is_dispatch c = is_role (dispatch_role c.name)

abbrev pub answer_local : ToolCall → Option ResultEntry
answer_local c = elim c.local_answer [
  | returned ↦ some (record { tool_use_id = c.id; is_error = false })
  | threw ↦ some (error_for c)
  | fatal ↦ none
]

has_duplicate : List String → Bool
has_duplicate [] = false
has_duplicate (t ∷ ts) = elem t ts || has_duplicate ts

-- `executeLocalTool`: the result, if it does not throw, and `consecutiveInvalidCalls`
unfoldable pub execute_local_tool : Dispatcher → ℕ → ToolCall → Option ResultEntry × ℕ
unfolding has_duplicate
execute_local_tool d invalid c =
    if has_duplicate d.tools
    then (some (error_for c), invalid)
    else (if elem c.name d.tools
        then (answer_local c, 0)
        else (if leb 3 (suc invalid)
            then (none, suc invalid)
            else (some (error_for c), suc invalid)))

-- the results of the local calls, if none throws, whether one was aborted, and the counter
pub record LocalRun : Type 0 where
  pub results : Option (List ResultEntry)
  pub aborted : Bool
  pub invalid : ℕ

abbrev pub before : ResultEntry → Option (List ResultEntry) → Option (List ResultEntry)
before e none = none
before e (some es) = some (e ∷ es)

-- the loop over the local calls
unfoldable pub run_locals : Dispatcher → ℕ → List ToolCall → LocalRun
unfolding execute_local_tool
run_locals d n [] = record { results = some []; aborted = false; invalid = n }
run_locals d n (c ∷ cs) = elim c.signalled [
  | true ↦
      let rest = run_locals d n cs in
      record { results = before (error_for c) rest.results; aborted = true; invalid = rest.invalid }
  | false ↦
      let (entry, n') = execute_local_tool d n c in
      elim entry [
        | none ↦ record { results = none; aborted = false; invalid = n' }
        | some e ↦
            let rest = run_locals d n' cs in
            record {
              results = before e rest.results;
              aborted = rest.aborted;
              invalid = rest.invalid;
            }
      ]
]

pub record Limits : Type 0 where
  pub allowed : List ToolCall
  pub rejected : List ToolCall

abbrev pub allow : ToolCall → Limits → Limits
allow c l = record l { allowed = c ∷ l.allowed }

abbrev pub reject : ToolCall → Limits → Limits
reject c l = record l { rejected = c ∷ l.rejected }

-- `enforceDispatchLimits`, with the roles that have been seen
unfoldable pub enforce_dispatch_limits : List String → List ToolCall → Limits
unfolding dispatch_role is_concurrency_limited
enforce_dispatch_limits seen [] = record { allowed = []; rejected = [] }
enforce_dispatch_limits seen (c ∷ cs) = elim (dispatch_role c.name) [
  | none ↦ enforce_dispatch_limits seen cs
  | some role ↦ elim (is_concurrency_limited role) [
    | false ↦ allow c (enforce_dispatch_limits seen cs)
    | true ↦ elim (elem role seen) [
      | true ↦ reject c (enforce_dispatch_limits seen cs)
      | false ↦ allow c (enforce_dispatch_limits (role ∷ seen) cs)
    ]
  ]
]

-- the result of an allowed call: `executeDispatchTool`, unless the signal is set
abbrev pub dispatch_entry : Dispatcher → ToolCall → ResultEntry
dispatch_entry d c = record {
  tool_use_id = c.id;
  is_error = c.signalled || not d.has_spawner || c.child_fails;
}

-- `processToolCalls`: its result, if it does not throw, and the counter
unfoldable pub process_tool_calls : Dispatcher → ℕ → List ToolCall → Option DispatchResult × ℕ
unfolding is_dispatch run_locals enforce_dispatch_limits
process_tool_calls d invalid calls =
    let locals = run_locals d invalid (filter (λ c. not (is_dispatch c)) calls) in
    let limits = enforce_dispatch_limits [] (filter is_dispatch calls) in
    elim locals.results [
      | none ↦ (none, locals.invalid)
      | some entries ↦ (
        some (record {
          tool_results =
              entries ++ (map error_for limits.rejected ++ map (dispatch_entry d) limits.allowed);
          aborted = locals.aborted;
          spawned = filter (λ c. not c.signalled && d.has_spawner) limits.allowed;
        }),
        locals.invalid,
      )
    ]
