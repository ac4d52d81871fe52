-- ===== src/Knowledge/Lifecycle/Memories.antt =====
-- The operations on memories of src/knowledge/lifecycle.ts.
use Prim.Native.String
use saivage.Base.{String, Option, none, List, [], ◌∷◌}
use saivage.Knowledge.Permissions.{memory}
use saivage.Knowledge.Records.{AuditOp, AuthorAgent, Topic, SourceRef, Details, of_skill, of_memory}
use saivage.Knowledge.Sidecar.{topic_collision, Tx, pure, ◌>>◌}
use saivage.Knowledge.Lifecycle.{
  Env, NewRecord, Changes, require_runtime_lock, assert_reason, assert_scope_ref, assert_no_secrets,
  assert_no_blocked_path, given_or, new_json, new_row, build_audit, parse_record, reingest,
  insert_new, archive_one, delete_one, update_one, supersede_one,
}
use saivage.Knowledge.Lifecycle.Skills.{check_body}

pub record CreateMemoryInput : Type 0 where
  pub topic : Topic
  pub keys : List String
  pub source_ref : Option SourceRef
  pub common : NewRecord

pub record UpdateMemoryInput : Type 0 where
  pub keys : Option (List String)
  pub common : Changes

pub record SupersedeMemoryInput : Type 0 where
  pub old_id : String
  pub new_record : CreateMemoryInput
  pub reason : String

-- `topicKey`: the parts with U+0001 between them
unfoldable pub topic_key : Topic → String
topic_key t =
    String.◌++◌ t.domain
      (String.◌++◌ "\u{1}" (String.◌++◌ t.subject (String.◌++◌ "\u{1}" (given_or t.aspect ""))))

abbrev pub memory_details : CreateMemoryInput → Details
memory_details input = of_memory input.topic input.keys input.common.body input.source_ref

-- the checks of the texts of a new memory
abbrev pub check_memory : Env → String → CreateMemoryInput → Tx (Unit {0})
check_memory env reason input = do
  assert_scope_ref input.common.scope input.common.scope_ref
  assert_no_secrets env (input.common.body ∷ reason ∷ [])
  assert_no_blocked_path env input.common.body

-- `createMemory`
unfoldable pub create_memory : Env → CreateMemoryInput → AuthorAgent → Tx String
unfolding require_runtime_lock assert_reason assert_scope_ref assert_no_secrets
    assert_no_blocked_path parse_record insert_new reingest
create_memory env input author = do
  require_runtime_lock env
  assert_reason input.common.reason
  check_memory env input.common.reason input
  let json = new_json env author input.common none (memory_details input)
  parse_record env json
  insert_new memory topic_collision
      (new_row env memory input.common (topic_key input.topic) none json)
      (build_audit env env.new_id AuditOp.create author)
  reingest env memory
  pure env.new_id

abbrev pub changed_memory : UpdateMemoryInput → Details → Details
changed_memory input (of_memory topic keys body source_ref) =
    of_memory topic (given_or input.keys keys) (given_or input.common.body body) source_ref
changed_memory input (of_skill name description triggers) = of_skill name description triggers

-- `updateMemory`
unfoldable pub update_memory : Env → UpdateMemoryInput → AuthorAgent → Tx String
unfolding require_runtime_lock assert_reason assert_no_secrets assert_no_blocked_path update_one
    reingest
update_memory env input author = do
  require_runtime_lock env
  assert_reason input.common.reason
  check_body env input.common.body
  update_one env memory input.common (changed_memory input) author
  reingest env memory
  pure input.common.id

-- `archiveMemory`
unfoldable pub archive_memory : Env → String → String → AuthorAgent → Tx String
unfolding require_runtime_lock assert_reason archive_one reingest
archive_memory env id reason author = do
  require_runtime_lock env
  assert_reason reason
  archive_one env memory id author
  reingest env memory
  pure id

-- `deleteMemory`
unfoldable pub delete_memory : Env → String → String → AuthorAgent → Tx String
unfolding require_runtime_lock assert_reason delete_one reingest
delete_memory env id reason author = do
  require_runtime_lock env
  assert_reason reason
  delete_one env memory id author
  reingest env memory
  pure id

-- `supersedeMemory`
unfoldable pub supersede_memory : Env → SupersedeMemoryInput → AuthorAgent → Tx String
unfolding require_runtime_lock assert_reason assert_scope_ref assert_no_secrets
    assert_no_blocked_path supersede_one reingest
supersede_memory env input author = do
  require_runtime_lock env
  assert_reason input.reason
  check_memory env input.reason input.new_record
  supersede_one env memory input.old_id input.new_record.common (topic_key input.new_record.topic)
      (memory_details input.new_record) author
  reingest env memory
  pure env.new_id
