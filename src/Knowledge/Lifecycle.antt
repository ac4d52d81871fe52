-- ===== src/Knowledge/Lifecycle.antt =====
-- What the operations of src/knowledge/lifecycle.ts share: the checks of src/knowledge/store.ts, the
-- rows that they build, and their transactions. `Skills`, `Memories`, `Scopes` and `Reads` have the
-- operations.
pub mod Skills
pub mod Memories
pub mod Scopes
pub mod Effects
use saivage.Base.{
  ℕ, zero, suc, String, Bool, true, false, not, ◌&&◌, Option, none, some, List, [], ◌∷◌, any,
  is_blank, if◌then◌else◌, ◌==◌,
}
use saivage.Knowledge.Permissions.{Role, Kind, skill, memory, Scope, project, stage, session}
use saivage.Knowledge.Records.{
  Status, active, superseded, archived, AuditOp, AuthorAgent, Topic, SourceRef, Details,
  KnowledgeRecord, RecordRow, AuditRow, Sidecar, Formats, is_active, same_kind, scope_ref_ok,
  record_ok, authored,
}
use saivage.Knowledge.Sidecar.{
  StoreError, no_runtime_lock, empty_reason, invalid_scope_ref, secret_detected, blocked_path,
  not_found, name_collision, topic_collision, invalid_supersede_scope, invalid_supersede_target,
  invalid_record, Outcome, ok, failed, Tx, pure, throw, require, check, ◌>>=◌, ◌>>◌, get_record,
  key_is_active, put_record, update_record, mark_superseded, delete_record, clear_pending_reingest,
}

-- What a call finds outside: the runtime lock, the clock, `randomUUID`, what the scans for secrets and
-- for blocked paths find in a text, the schemas' formats, and whether the index takes the records.
pub record Env : Type 0 where
  pub lock_held : Bool
  pub now : String
  pub new_id : String
  pub finds_secret : String → Bool
  pub finds_blocked_path : String → Bool
  pub formats : Formats
  pub index_ok : Bool

-- the fields that both inputs of a creation have
pub record NewRecord : Type 0 where
  pub body : String
  pub scope : Scope
  pub scope_ref : Option String
  pub target_agents : List Role
  pub expires_at : Option String
  pub ttl_ms : Option ℕ
  pub survive_compaction : Bool
  pub reason : String

-- the fields that both inputs of an update have
pub record Changes : Type 0 where
  pub id : String
  pub body : Option String
  pub target_agents : Option (List Role)
  pub expires_at : Option String
  pub ttl_ms : Option ℕ
  pub reason : String

-- `requireRuntimeLock`
unfoldable pub require_runtime_lock : Env → Tx (Unit {0})
require_runtime_lock env = check env.lock_held no_runtime_lock

-- `assertReason`
unfoldable pub assert_reason : String → Tx (Unit {0})
unfolding is_blank
assert_reason reason = check (not (is_blank reason)) empty_reason

-- `assertScopeRef`
unfoldable pub assert_scope_ref : Scope → Option String → Tx (Unit {0})
assert_scope_ref scope ref = check (scope_ref_ok scope ref) invalid_scope_ref

-- `detectSecrets` finds nothing: empty texts are not scanned
abbrev pub no_secret_in : Env → List String → Bool
no_secret_in env fields = not (any (λ t. not (t == "") && env.finds_secret t) fields)

-- `assertNoSecrets`
unfoldable pub assert_no_secrets : Env → List String → Tx (Unit {0})
assert_no_secrets env fields = check (no_secret_in env fields) secret_detected

-- `assertBodyHasNoBlockedPath`
unfoldable pub assert_no_blocked_path : Env → String → Tx (Unit {0})
assert_no_blocked_path env body = check (not (env.finds_blocked_path body)) blocked_path

-- `isAllowedSupersedeScopePair`
unfoldable pub is_allowed_supersede_scope_pair : Scope → Scope → Bool
is_allowed_supersede_scope_pair project project = true
is_allowed_supersede_scope_pair stage project = true
is_allowed_supersede_scope_pair stage stage = true
is_allowed_supersede_scope_pair session project = true
is_allowed_supersede_scope_pair session session = true
is_allowed_supersede_scope_pair old new = false

-- `a ?? b`
abbrev pub given_or {ℓ} : {A : Type ℓ} → Option A → A → A
given_or none b = b
given_or (some a) b = a

-- `{ ...prior, ...(x !== undefined ? { x } : {}) }`
abbrev pub given_else {ℓ} : {A : Type ℓ} → Option A → Option A → Option A
given_else none prior = prior
given_else (some a) prior = some a

-- `…(text ? { text } : {})`
abbrev pub if_truthy : Option String → Option String
if_truthy none = none
if_truthy (some s) = if s == "" then none else some s

abbrev pub if_nonzero : Option ℕ → Option ℕ
if_nonzero (some (suc n)) = some (suc n)
if_nonzero n = none

-- the record of a creation or, with the id that it supersedes, of a supersession
abbrev pub new_json : Env → AuthorAgent → NewRecord → Option String → Details → KnowledgeRecord
new_json env author input supersedes details = record {
  id = env.new_id;
  scope = input.scope;
  status = active;
  created_at = env.now;
  updated_at = env.now;
  author_agent = author;
  scope_ref = if_truthy input.scope_ref;
  expires_at = if_truthy input.expires_at;
  ttl_ms = if_nonzero input.ttl_ms;
  supersedes = supersedes;
  survive_compaction = input.survive_compaction;
  target_agents = input.target_agents;
  details = details;
}

-- its row
abbrev pub new_row : Env → Kind → NewRecord → String → Option String → KnowledgeRecord → RecordRow
new_row env kind input key supersedes json = record {
  id = env.new_id;
  kind = kind;
  scope = input.scope;
  scope_ref = input.scope_ref;
  status = active;
  origin = authored;
  json = json;
  body = input.body;
  created_at = env.now;
  updated_at = env.now;
  supersedes = supersedes;
  superseded_by = none;
  pending_reingest = true;
  key = key;
}

-- `buildAudit`
abbrev pub build_audit : Env → String → AuditOp → AuthorAgent → AuditRow
build_audit env record_id op author = record {
  record_id = record_id;
  ts = env.now;
  op = op;
  actor = author;
}

-- `SkillRecordSchema.parse`, `MemoryRecordSchema.parse`
unfoldable pub parse_record : Env → KnowledgeRecord → Tx (Unit {0})
unfolding record_ok
parse_record env json = check (record_ok env.formats json) invalid_record

-- `reingestBestEffort`
unfoldable pub reingest : Env → Kind → Tx (Unit {0})
unfolding clear_pending_reingest
reingest env kind s =
    if env.index_ok
    then ok (tt, record s { rows = clear_pending_reingest kind s.rows })
    else ok (tt, s)

abbrev of_kind : Kind → Option RecordRow → Option RecordRow
of_kind kind none = none
of_kind kind (some r) = if same_kind r.kind kind then some r else none

-- the row of the id, which has to be of the kind
unfoldable pub find_of_kind : Kind → String → Tx RecordRow
unfolding get_record
find_of_kind kind id s = require (of_kind kind (get_record s id)) not_found s

-- the transaction of a creation
unfoldable pub insert_new : Kind → StoreError → RecordRow → AuditRow → Tx (Unit {0})
unfolding key_is_active put_record
insert_new kind collision row a s =
    if key_is_active s kind row.scope row.scope_ref row.key
    then failed collision
    else put_record row a s

-- the transaction of an archival
unfoldable pub archive_one : Env → Kind → String → AuthorAgent → Tx (Unit {0})
unfolding find_of_kind update_record parse_record
archive_one env kind id author = do
  row ← find_of_kind kind id
  let json = record (row.json) { status = archived; updated_at = env.now }
  parse_record env json
  update_record
      (record row { status = archived; json = json; updated_at = env.now; pending_reingest = true })
      (build_audit env id AuditOp.archive author)

-- the transaction of a deletion
unfoldable pub delete_one : Env → Kind → String → AuthorAgent → Tx (Unit {0})
unfolding find_of_kind delete_record
delete_one env kind id author = do
  row ← find_of_kind kind id
  delete_record id (build_audit env id AuditOp.delete author)

-- the transaction of an update; `details` rewrites what the kinds do not share
unfoldable pub update_one : Env → Kind → Changes → (Details → Details) → AuthorAgent → Tx (Unit {0})
unfolding find_of_kind update_record parse_record
update_one env kind input details author = do
  row ← find_of_kind kind input.id
  let json = record (row.json) {
    details = details row.json.details;
    target_agents = given_or input.target_agents row.json.target_agents;
    expires_at = given_else input.expires_at row.json.expires_at;
    ttl_ms = given_else input.ttl_ms row.json.ttl_ms;
    updated_at = env.now;
  }
  parse_record env json
  update_record
      (record row {
        json = json;
        body = given_or input.body row.body;
        updated_at = env.now;
        pending_reingest = true;
      })
      (build_audit env input.id AuditOp.update author)

-- the transaction of a supersession
unfoldable pub supersede_one :
    Env → Kind → String → NewRecord → String → Details → AuthorAgent → Tx (Unit {0})
unfolding find_of_kind is_allowed_supersede_scope_pair put_record mark_superseded parse_record
supersede_one env kind old_id input key details author = do
  old ← find_of_kind kind old_id
  check (is_allowed_supersede_scope_pair old.scope input.scope) invalid_supersede_scope
  check (is_active old.status) invalid_supersede_target
  let json = new_json env author input (some old_id) details
  parse_record env json
  put_record (new_row env kind input key (some old_id) json)
      (build_audit env env.new_id AuditOp.supersede author)
  mark_superseded old_id env.new_id env.now (build_audit env old_id AuditOp.supersede author)
