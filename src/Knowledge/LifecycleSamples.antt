-- ===== src/Knowledge/LifecycleSamples.antt =====
-- The theorems on src/knowledge/lifecycle.ts at concrete inputs.
use saivage.Base.{
  ℕ, ◌≡◌, refl, ◌<◌, ◌≤◌, true, false, Option, none, some, [], ◌∷◌, arith, All, length, Distinct,
  length,
}
use saivage.Knowledge.Permissions.{planner, skill, memory, project}
use saivage.Knowledge.Records.{
  active, superseded, archived, authored, AuthorAgent, Topic, of_skill, of_memory, KnowledgeRecord,
  RecordRow, Sidecar, is_active,
}
use saivage.Knowledge.Sidecar.{ok}
use saivage.Knowledge.Sidecar.Rows.{find_row}
use saivage.Knowledge.Lifecycle.{Env}
use saivage.Knowledge.Lifecycle.Skills
use saivage.Knowledge.Lifecycle.Skills.{SupersedeSkillInput, supersede_skill}
use saivage.Knowledge.Calls.{archive_skill, delete_skill, KnowledgeCall, run, step}
use saivage.Knowledge.Calls
use saivage.Knowledge.Calls.Statuses.{status_of, Moved, step-Move}
use saivage.Knowledge.Calls.Kept.{archived_id}
use saivage.Knowledge.Calls.Ids.{row_ids}
use saivage.Knowledge.Calls.Audit.{Traced, step-Traced}
use saivage.Knowledge.Reads.{start_row, get_memory, list_skills}
use saivage.Knowledge.Reads.Search.{Hit, SearchContext, search_records}
use saivage.Knowledge.Reads.Chain.{Leads, get_memory_ends}
use saivage.Knowledge.Reads.Visible.{Shown, search_shows}
use saivage.Knowledge.Reads.Listing.{every_skill, shows, list_skills-supersede_skill}

abbrev here : Env
here = record {
  lock_held = true;
  now = "2026-05-02T00:00:00Z";
  new_id = "new";
  finds_secret = λ t. false;
  finds_blocked_path = λ t. false;
  formats = record { is_datetime = λ t. true; is_record_id = λ t. true };
  index_ok = true;
}

abbrev author : AuthorAgent
author = record { role = planner; agent_id = "planner-1" }

abbrev skill_json : KnowledgeRecord
skill_json = record {
  id = "old";
  scope = project;
  status = active;
  created_at = "2026-05-01T00:00:00Z";
  updated_at = "2026-05-01T00:00:00Z";
  author_agent = author;
  scope_ref = none;
  expires_at = none;
  ttl_ms = none;
  supersedes = none;
  survive_compaction = false;
  target_agents = [];
  details = of_skill "build" "how to build" [];
}

abbrev skill_row : RecordRow
skill_row = record {
  id = "old";
  kind = skill;
  scope = project;
  scope_ref = none;
  status = active;
  origin = authored;
  json = skill_json;
  body = "make";
  created_at = "2026-05-01T00:00:00Z";
  updated_at = "2026-05-01T00:00:00Z";
  supersedes = none;
  superseded_by = none;
  pending_reingest = false;
  key = "build";
}

abbrev one_skill : Sidecar
one_skill = record { rows = skill_row ∷ []; audit = [] }

abbrev retired_skill : Sidecar
retired_skill = record { rows = record skill_row { status = superseded } ∷ []; audit = [] }

abbrev ports : Topic
ports = record { domain = "net"; subject = "ports"; aspect = none }

-- two memories, the second in place of the first
abbrev first_memory : RecordRow
first_memory = record skill_row {
  id = "m1";
  kind = memory;
  status = superseded;
  superseded_by = some "m2";
  json = record skill_json { id = "m1"; details = of_memory ports [] "8080" none };
}

abbrev second_memory : RecordRow
second_memory = record skill_row {
  id = "m2";
  kind = memory;
  supersedes = some "m1";
  json = record skill_json { id = "m2"; details = of_memory ports [] "9090" none };
}

abbrev two_memories : Sidecar
two_memories = record { rows = first_memory ∷ second_memory ∷ []; audit = [] }

abbrev replacement : SupersedeSkillInput
replacement = record {
  old_id = "old";
  reason = "the build has moved";
  new_record = record {
    name = "build";
    description = "how to build now";
    triggers = [];
    common = record {
      body = "ninja";
      scope = project;
      scope_ref = none;
      target_agents = [];
      expires_at = none;
      ttl_ms = none;
      survive_compaction = false;
      reason = "the build has moved";
    };
  };
}

step-Move_example :
    Moved
      (archived_id (archive_skill "old" "stale" author) ≡ some "old")
      (status_of retired_skill "old")
      (status_of (step here (archive_skill "old" "stale" author) retired_skill) "old")
step-Move_example = step-Move here (archive_skill "old" "stale" author) retired_skill "old"

-- A superseded skill is archived like an active one.
archives_superseded :
    (status_of retired_skill "old" ≡ some superseded)
    × (status_of (step here (archive_skill "old" "stale" author) retired_skill) "old"
        ≡ some archived)
unfolding step status_of Skills.archive_skill
archives_superseded = (refl, refl)

step-Traced_example : Traced one_skill (step here (delete_skill "old" "stale" author) one_skill)
step-Traced_example = step-Traced here (delete_skill "old" "stale" author) one_skill

one_skill-Distinct : Distinct (row_ids one_skill.rows)
one_skill-Distinct = ground arith

enough_fuel : length two_memories.rows < 3
enough_fuel = omega arith

get_memory_ends_example :
    (r : Option RecordRow) × (get_memory two_memories 3 (some "m1") none ≡ some r)
    × ((row : RecordRow)
        → r ≡ some row
        → (is_active row.status ≡ true)
          × ((start : RecordRow) × (start_row two_memories (some "m1") none ≡ some start)
              × Leads two_memories start row))
get_memory_ends_example = get_memory_ends two_memories 3 (some "m1") none enough_fuel

abbrev no_stage : SearchContext
no_stage = record { stage_id = none; channel_id = none }

abbrev one_hit : Hit
one_hit = record { record_id = some "old"; score = 5; text = "make" }

one_skill-found :
    search_records one_skill skill none no_stage (some (one_hit ∷ [])) ≡ some ((skill_row, 5) ∷ [])
unfolding search_records
one_skill-found = refl

search_shows_example :
    All {A = RecordRow × ℕ} (λ hit. Shown one_skill skill no_stage hit.0) ((skill_row, 5) ∷ [])
    × (length {A = RecordRow × ℕ} ((skill_row, 5) ∷ []) ≤ 50)
search_shows_example =
    search_shows one_skill skill none no_stage (some (one_hit ∷ [])) one_skill-Distinct
      one_skill-found

abbrev with_successor : Sidecar
with_successor = step here (Calls.supersede_skill replacement author) one_skill

supersedes_it : supersede_skill here replacement author one_skill ≡ ok ("new", with_successor)
unfolding supersede_skill step
supersedes_it = refl

found_it : find_row "old" one_skill.rows ≡ some skill_row
found_it = refl

list_skills-supersede_skill_example : shows "old" (list_skills with_successor every_skill) ≡ true
list_skills-supersede_skill_example =
    list_skills-supersede_skill here replacement author one_skill with_successor "new" skill_row
      found_it refl supersedes_it
