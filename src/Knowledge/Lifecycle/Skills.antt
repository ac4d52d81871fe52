-- ===== src/Knowledge/Lifecycle/Skills.antt =====
-- The operations on skills of src/knowledge/lifecycle.ts.
use saivage.Base.{String, Option, none, some, List, [], ◌∷◌}
use saivage.Knowledge.Permissions.{skill}
use saivage.Knowledge.Records.{AuditOp, AuthorAgent, Details, of_skill, of_memory}
use saivage.Knowledge.Sidecar.{name_collision, Tx, pure, ◌>>◌}
use saivage.Knowledge.Lifecycle.{
  Env, NewRecord, Changes, require_runtime_lock, assert_reason, assert_scope_ref, assert_no_secrets,
  assert_no_blocked_path, given_or, new_json, new_row, build_audit, parse_record, reingest,
  insert_new, archive_one, delete_one, update_one, supersede_one,
}

pub record CreateSkillInput : Type 0 where
  pub name : String
  pub description : String
  pub triggers : List String
  pub common : NewRecord

pub record UpdateSkillInput : Type 0 where
  pub description : Option String
  pub triggers : Option (List String)
  pub common : Changes

pub record SupersedeSkillInput : Type 0 where
  pub old_id : String
  pub new_record : CreateSkillInput
  pub reason : String

abbrev pub skill_details : CreateSkillInput → Details
skill_details input = of_skill input.name input.description input.triggers

-- the checks of the texts of a new skill
abbrev pub check_skill : Env → String → CreateSkillInput → Tx (Unit {0})
check_skill env reason input = do
  assert_scope_ref input.common.scope input.common.scope_ref
  assert_no_secrets env (input.common.body ∷ reason ∷ input.description ∷ [])
  assert_no_blocked_path env input.common.body

-- `createSkill`
unfoldable pub create_skill : Env → CreateSkillInput → AuthorAgent → Tx String
unfolding require_runtime_lock assert_reason assert_scope_ref assert_no_secrets
    assert_no_blocked_path parse_record insert_new reingest
create_skill env input author = do
  require_runtime_lock env
  assert_reason input.common.reason
  check_skill env input.common.reason input
  let json = new_json env author input.common none (skill_details input)
  parse_record env json
  insert_new skill name_collision (new_row env skill input.common input.name none json)
      (build_audit env env.new_id AuditOp.create author)
  reingest env skill
  pure env.new_id

abbrev pub check_body : Env → Option String → Tx (Unit {0})
check_body env none = pure tt
check_body env (some body) = do assert_no_secrets env (body ∷ []); assert_no_blocked_path env body

abbrev pub check_description : Env → Option String → Tx (Unit {0})
check_description env none = pure tt
check_description env (some description) = assert_no_secrets env (description ∷ [])

abbrev pub changed_skill : UpdateSkillInput → Details → Details
changed_skill input (of_skill name description triggers) =
    of_skill name (given_or input.description description) (given_or input.triggers triggers)
changed_skill input (of_memory topic keys body source_ref) = of_memory topic keys body source_ref

-- `updateSkill`
unfoldable pub update_skill : Env → UpdateSkillInput → AuthorAgent → Tx String
unfolding require_runtime_lock assert_reason assert_no_secrets assert_no_blocked_path update_one
    reingest
update_skill env input author = do
  require_runtime_lock env
  assert_reason input.common.reason
  check_body env input.common.body
  check_description env input.description
  update_one env skill input.common (changed_skill input) author
  reingest env skill
  pure input.common.id

-- `archiveSkill`
unfoldable pub archive_skill : Env → String → String → AuthorAgent → Tx String
unfolding require_runtime_lock assert_reason archive_one reingest
archive_skill env id reason author = do
  require_runtime_lock env
  assert_reason reason
  archive_one env skill id author
  reingest env skill
  pure id

-- `deleteSkill`
unfoldable pub delete_skill : Env → String → String → AuthorAgent → Tx String
unfolding require_runtime_lock assert_reason delete_one reingest
delete_skill env id reason author = do
  require_runtime_lock env
  assert_reason reason
  delete_one env skill id author
  reingest env skill
  pure id

-- `supersedeSkill`
unfoldable pub supersede_skill : Env → SupersedeSkillInput → AuthorAgent → Tx String
unfolding require_runtime_lock assert_reason assert_scope_ref assert_no_secrets
    assert_no_blocked_path supersede_one reingest
supersede_skill env input author = do
  require_runtime_lock env
  assert_reason input.reason
  check_skill env input.reason input.new_record
  supersede_one env skill input.old_id input.new_record.common input.new_record.name
      (skill_details input.new_record) author
  reingest env skill
  pure env.new_id
