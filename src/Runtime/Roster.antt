-- ===== src/Runtime/Roster.antt =====
-- src/agents/roster.ts: the roles, with the fields that the dispatcher and the supervisor read.
use saivage.Base.{ℕ, String, Bool, true, false, Option, none, some, List, [], ◌∷◌, find?, ◌==◌}

-- `RosterEntry`
pub record RosterEntry : Type 0 where
  pub role : String
  pub worker : Bool
  pub dispatch_tool : Option String
  pub abort_priority : Option ℕ

abbrev entry : String → Bool → Option String → Option ℕ → RosterEntry
entry role worker tool priority = record {
  role = role;
  worker = worker;
  dispatch_tool = tool;
  abort_priority = priority;
}

-- `ROSTER`
abbrev pub roster : List RosterEntry
roster =
    entry "planner" false none none
    ∷ entry "manager" false (some "run_manager") (some 7)
    ∷ entry "coder" true (some "run_coder") (some 4)
    ∷ entry "researcher" true (some "run_researcher") (some 5)
    ∷ entry "data_agent" true (some "run_data_agent") (some 3)
    ∷ entry "reviewer" true (some "run_reviewer") (some 1)
    ∷ entry "designer" true (some "run_designer") (some 6)
    ∷ entry "critic" true (some "run_critic") (some 2)
    ∷ entry "inspector" false (some "run_inspector") none
    ∷ entry "chat" false none none
    ∷ entry "librarian" false (some "run_librarian") (some 8)
    ∷ []

abbrev is_tool : String → Option String → Bool
is_tool name none = false
is_tool name (some tool) = tool == name

abbrev role_of_entry : Option RosterEntry → Option String
role_of_entry none = none
role_of_entry (some e) = some e.role

-- `DISPATCH_ROLE_MAP[name]`
unfoldable pub dispatch_role : String → Option String
dispatch_role name = role_of_entry (find? (λ e. is_tool name e.dispatch_tool) roster)

-- `getRoster`, where it does not throw
unfoldable pub get_roster : String → Option RosterEntry
get_roster role = find? (λ e. e.role == role) roster

abbrev worker_of : Option RosterEntry → Bool
worker_of none = false
worker_of (some e) = e.worker

-- `isConcurrencyLimitedDispatch`
unfoldable pub is_concurrency_limited : String → Bool
unfolding get_roster
is_concurrency_limited role = worker_of (get_roster role)

abbrev priority_of : Option RosterEntry → Option ℕ
priority_of none = none
priority_of (some e) = e.abort_priority

-- `getAbortPriority`
unfoldable pub get_abort_priority : String → Option ℕ
unfolding get_roster
get_abort_priority role = priority_of (get_roster role)
