-- ===== src/Knowledge/Lifecycle/Scopes.antt =====
-- `archiveStage` and `archiveSession` of src/knowledge/lifecycle.ts.
use saivage.Base.{String, List}
use saivage.Knowledge.Permissions.{manager, skill, memory, Scope, stage, session}
use saivage.Knowledge.Records.{AuthorAgent}
use saivage.Knowledge.Sidecar.{Tx, pure, ◌>>=◌, ◌>>◌, archive_scope}
use saivage.Knowledge.Lifecycle.{Env, require_runtime_lock}

-- `ScopeArchiveResult`
pub record ScopeArchiveResult : Type 0 where
  pub archived_skills : List String
  pub archived_memories : List String

-- `SYSTEM_AUTHOR`
abbrev pub system_author : AuthorAgent
system_author = record { role = manager; agent_id = "system" }

-- `archiveScopeForProject`
unfoldable pub archive_scope_for_project : Env → Scope → String → Tx ScopeArchiveResult
unfolding require_runtime_lock archive_scope
archive_scope_for_project env scope scope_ref = do
  require_runtime_lock env
  skills ← archive_scope skill scope scope_ref system_author env.now
  memories ← archive_scope memory scope scope_ref system_author env.now
  pure (record { archived_skills = skills; archived_memories = memories })

unfoldable pub archive_stage : Env → String → Tx ScopeArchiveResult
unfolding archive_scope_for_project
archive_stage env stage_id = archive_scope_for_project env stage stage_id

unfoldable pub archive_session : Env → String → Tx ScopeArchiveResult
unfolding archive_scope_for_project
archive_session env channel_id = archive_scope_for_project env session channel_id
