-- ===== src/Knowledge/Calls.antt =====
-- The writing operations of src/knowledge/lifecycle.ts as calls, and runs of them. A writer holds the
-- runtime lock and a transaction is synchronous, so that calls take effect one after the other.
pub mod Rules
pub mod Kept
pub mod Statuses
pub mod Ids
pub mod Audit
use saivage.Base.{String, List, [], ◌∷◌}
use saivage.Knowledge.Records.{AuthorAgent, Sidecar}
use saivage.Knowledge.Sidecar.{Outcome, ok, failed, Tx, after}
use saivage.Knowledge.Lifecycle.{Env}
use saivage.Knowledge.Lifecycle.Skills.{CreateSkillInput, UpdateSkillInput, SupersedeSkillInput}
use saivage.Knowledge.Lifecycle.Skills
use saivage.Knowledge.Lifecycle.Memories.{
  CreateMemoryInput, UpdateMemoryInput, SupersedeMemoryInput,
}
use saivage.Knowledge.Lifecycle.Memories
use saivage.Knowledge.Lifecycle.Scopes

pub data KnowledgeCall : Type 0 where
  create_skill : CreateSkillInput → AuthorAgent → KnowledgeCall
  update_skill : UpdateSkillInput → AuthorAgent → KnowledgeCall
  archive_skill delete_skill : (id reason : String) → AuthorAgent → KnowledgeCall
  supersede_skill : SupersedeSkillInput → AuthorAgent → KnowledgeCall
  create_memory : CreateMemoryInput → AuthorAgent → KnowledgeCall
  update_memory : UpdateMemoryInput → AuthorAgent → KnowledgeCall
  archive_memory delete_memory : (id reason : String) → AuthorAgent → KnowledgeCall
  supersede_memory : SupersedeMemoryInput → AuthorAgent → KnowledgeCall
  archive_stage archive_session : (scope_ref : String) → KnowledgeCall

-- the state after a call
unfoldable pub step : Env → KnowledgeCall → Sidecar → Sidecar
step env (create_skill input author) s = after s (Skills.create_skill env input author s)
step env (update_skill input author) s = after s (Skills.update_skill env input author s)
step env (archive_skill id reason author) s = after s (Skills.archive_skill env id reason author s)
step env (delete_skill id reason author) s = after s (Skills.delete_skill env id reason author s)
step env (supersede_skill input author) s = after s (Skills.supersede_skill env input author s)
step env (create_memory input author) s = after s (Memories.create_memory env input author s)
step env (update_memory input author) s = after s (Memories.update_memory env input author s)
step env (archive_memory id reason author) s =
    after s (Memories.archive_memory env id reason author s)
step env (delete_memory id reason author) s =
    after s (Memories.delete_memory env id reason author s)
step env (supersede_memory input author) s = after s (Memories.supersede_memory env input author s)
step env (archive_stage id) s = after s (Scopes.archive_stage env id s)
step env (archive_session id) s = after s (Scopes.archive_session env id s)

unfoldable pub run : List (Env × KnowledgeCall) → Sidecar → Sidecar
run [] s = s
run ((env, c) ∷ cs) s = run cs (step env c s)
