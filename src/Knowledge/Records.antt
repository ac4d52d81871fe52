-- ===== src/Knowledge/Records.antt =====
-- Records of src/knowledge/types.ts and rows of src/knowledge/sidecar.ts. The JSON text of a record is
-- the record. The value of a side table (a skill's name, a memory's topic key) stands in the row that
-- it is inserted and deleted with. `relates_to`, always empty, and `source` are left out.
use saivage.Base.{
  ℕ, zero, suc, String, Bool, true, false, not, ◌&&◌, Option, none, some, List, ◌==◌,
}
use saivage.Knowledge.Permissions.{Role, Kind, skill, memory, Scope, project, stage, session}

-- `LifecycleStatus`
pub data Status : Type 0 where
  active superseded archived expired : Status

-- `RecordOrigin`: "builtin", "project"
pub data Origin : Type 0 where
  bundled authored : Origin

-- `AuditOp`
pub data AuditOp : Type 0 where
  create update supersede archive unarchive delete expire : AuditOp

pub record AuthorAgent : Type 0 where
  pub role : Role
  pub agent_id : String

pub record Topic : Type 0 where
  pub domain : String
  pub subject : String
  pub aspect : Option String

pub data SourceKind : Type 0 where
  inspection task_report stage_summary : SourceKind

pub record SourceRef : Type 0 where
  pub kind : SourceKind
  pub id : String

-- what `SkillRecord` and `MemoryRecord` do not share; the memory's body is its row's too
pub data Details : Type 0 where
  of_skill : (name description : String) → (triggers : List String) → Details
  of_memory :
      Topic → (keys : List String) → (body : String) → (source_ref : Option SourceRef) → Details

pub record KnowledgeRecord : Type 0 where
  pub id : String
  pub scope : Scope
  pub status : Status
  pub created_at : String
  pub updated_at : String
  pub author_agent : AuthorAgent
  pub scope_ref : Option String
  pub expires_at : Option String
  pub ttl_ms : Option ℕ
  pub supersedes : Option String
  pub survive_compaction : Bool
  pub target_agents : List Role
  pub details : Details

pub record RecordRow : Type 0 where
  pub id : String
  pub kind : Kind
  pub scope : Scope
  pub scope_ref : Option String
  pub status : Status
  pub origin : Origin
  pub json : KnowledgeRecord
  pub body : String
  pub created_at : String
  pub updated_at : String
  pub supersedes : Option String
  pub superseded_by : Option String
  pub pending_reingest : Bool
  pub key : String

-- `SidecarAuditRow`; the JSON of what changed is left out
pub record AuditRow : Type 0 where
  pub record_id : String
  pub ts : String
  pub op : AuditOp
  pub actor : AuthorAgent

-- the tables `record`, with the side tables, and `audit`
pub record Sidecar : Type 0 where
  pub rows : List RecordRow
  pub audit : List AuditRow

-- What the schemas ask of texts by regular expressions.
pub record Formats : Type 0 where
  pub is_datetime : String → Bool
  pub is_record_id : String → Bool

abbrev pub is_active : Status → Bool
is_active active = true
is_active status = false

abbrev pub same_kind : Kind → Kind → Bool
same_kind skill skill = true
same_kind memory memory = true
same_kind k k' = false

abbrev pub same_scope : Scope → Scope → Bool
same_scope project project = true
same_scope stage stage = true
same_scope session session = true
same_scope s s' = false

-- `scope_ref IS NULL` or `scope_ref = ?`
abbrev pub same_ref : Option String → Option String → Bool
same_ref none none = true
same_ref (some a) (some b) = a == b
same_ref a b = false

abbrev nonempty : String → Bool
nonempty s = not (s == "")

-- an optional field: absent, or passing the test
abbrev holds_if_given {ℓ} : {A : Type ℓ} → (A → Bool) → Option A → Bool
holds_if_given p none = true
holds_if_given p (some a) = p a

abbrev is_positive : ℕ → Bool
is_positive zero = false
is_positive (suc n) = true

-- `scopeRefRefinement`, and `assertScopeRef` passing
abbrev pub scope_ref_ok : Scope → Option String → Bool
scope_ref_ok project ref = true
scope_ref_ok scope none = false
scope_ref_ok scope (some ref) = nonempty ref

abbrev source_ok : SourceRef → Bool
source_ok ref = nonempty ref.id

abbrev details_ok : Details → Bool
details_ok (of_skill name description triggers) = nonempty name
details_ok (of_memory topic keys body source_ref) =
    nonempty topic.domain && nonempty topic.subject && holds_if_given source_ok source_ref

-- `SkillRecordSchema.parse` or `MemoryRecordSchema.parse` succeeds on a record whose id and times the
-- program has made itself.
unfoldable pub record_ok : Formats → KnowledgeRecord → Bool
record_ok formats r =
    nonempty r.author_agent.agent_id
    && holds_if_given nonempty r.scope_ref
    && holds_if_given formats.is_datetime r.expires_at
    && holds_if_given is_positive r.ttl_ms
    && holds_if_given formats.is_record_id r.supersedes
    && scope_ref_ok r.scope r.scope_ref
    && details_ok r.details
