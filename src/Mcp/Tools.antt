-- ===== src/Mcp/Tools.antt =====
-- The tools that agents call: src/agents/tool-filters.ts, and the in-process and external services of src/mcp.
pub mod Services
pub mod Allowed
pub mod Names
use saivage.Base.{
  String, Bool, true, false, not, ◌||◌, Option, none, some, List, [], ◌∷◌, ◌++◌, elem, find?,
  if◌then◌else◌, ◌==◌,
}

-- `ToolFilterKind`
pub data ToolFilterKind : Type 0 where
  planner worker reviewer inspector chat librarian : ToolFilterKind

abbrev pub read_only_tools : List String
read_only_tools = "read" ∷ "glob" ∷ "grep" ∷ "git_status" ∷ "git_log" ∷ "git_diff" ∷ "skill" ∷ []

abbrev pub plan_tools : List String
plan_tools =
    "plan_get" ∷ "plan_get_stage" ∷ "plan_get_current_stage" ∷ "plan_set_stages" ∷ "plan_add_stage"
    ∷ "plan_remove_stage" ∷ "plan_set_current" ∷ "plan_complete_stage" ∷ "plan_get_history"
    ∷ "plan_init" ∷ "plan_commit" ∷ "plan_done" ∷ []

abbrev stage_artifact_tools : List String
stage_artifact_tools =
    "stage_write_tasks" ∷ "task_write_report" ∷ "stage_write_summary" ∷ "stage_get_run"
    ∷ "stage_list_reports" ∷ []

abbrev web_tools : List String
web_tools = "websearch" ∷ "webfetch" ∷ []

abbrev librarian_tools : List String
librarian_tools =
    "rag_list" ∷ "rag_stats" ∷ "rag_query" ∷ "rag_register" ∷ "rag_ingest" ∷ "rag_drop"
    ∷ "rag_admin" ∷ "read" ∷ "glob" ∷ "grep" ∷ "skill" ∷ "list_memories" ∷ "get_memory"
    ∷ "search_memories" ∷ "create_memory" ∷ "update_memory" ∷ []

-- `applyToolFilter`
unfoldable pub apply_tool_filter : ToolFilterKind → String → Bool
apply_tool_filter planner n =
    elem n plan_tools || elem n stage_artifact_tools || elem n read_only_tools
apply_tool_filter worker n = not (elem n plan_tools)
apply_tool_filter reviewer n =
    elem n read_only_tools || elem n stage_artifact_tools || n == "run_command"
apply_tool_filter inspector n = elem n read_only_tools || n == "run_command" || elem n web_tools
apply_tool_filter chat n = elem n read_only_tools || elem n web_tools || n == "create_note"
apply_tool_filter librarian n = elem n librarian_tools

-- the roles of `ROSTER` with their `toolFilter`
abbrev pub role_filters : List (String × ToolFilterKind)
role_filters =
    ("planner", planner)
    ∷ ("manager", worker)
    ∷ ("coder", worker)
    ∷ ("researcher", worker)
    ∷ ("data_agent", worker)
    ∷ ("reviewer", reviewer)
    ∷ ("designer", worker)
    ∷ ("critic", reviewer)
    ∷ ("inspector", inspector)
    ∷ ("chat", chat)
    ∷ ("librarian", librarian)
    ∷ []

abbrev pub filter_of : Option (String × ToolFilterKind) → Option ToolFilterKind
filter_of none = none
filter_of (some (role, kind)) = some kind

-- `getToolFilter`; none where it throws
unfoldable pub get_tool_filter : String → Option ToolFilterKind
get_tool_filter role = filter_of (find? (λ entry. entry.0 == role) role_filters)

-- the caller: `role` and `operatorContext` of a `ToolCallContext`
pub record Caller : Type 0 where
  pub role : String
  pub operator : Bool

pub data Authorization : Type 0 where
  granted unknown_tool unknown_role unauthorized : Authorization

abbrev pub filtered : Option ToolFilterKind → String → Authorization
filtered none tool = unknown_role
filtered (some kind) tool = if apply_tool_filter kind tool then granted else unauthorized

-- `authorizeToolCall` of both kinds of services, over the names of the service's tools
unfoldable pub authorize_tool_call : List String → String → Option Caller → Authorization
unfolding get_tool_filter apply_tool_filter
authorize_tool_call tools tool none = granted
authorize_tool_call tools tool (some caller) =
    if caller.operator
    then granted
    else if not (elem tool tools)
    then unknown_tool
    else filtered (get_tool_filter caller.role) tool
