-- ===== src/Mcp/MemoryTools.antt =====
-- src/mcp/knowledgeMemory.ts: the handler of the memory tools over the operations of
-- src/knowledge/lifecycle.ts. The arguments have the types that the handler casts them to.
pub mod Confined
pub mod Gates
pub mod Operations
pub mod Handler
pub mod Answers
use saivage.Base.{
  ℕ, suc, String, Bool, true, false, not, ◌||◌, ◌&&◌, Option, none, some, List, length,
  if◌then◌else◌, ◌==◌,
}
use saivage.Knowledge.Permissions.{
  Role, librarian, Op, create, supersede, archive, read, search, Kind, memory, can_call, Scope,
  ScopeContext, check_scope,
}
use saivage.Knowledge.Records.{
  AuthorAgent, Topic, Details, of_skill, of_memory, KnowledgeRecord, RecordRow, Sidecar, same_kind,
}
use saivage.Knowledge.Sidecar.{StoreError, not_found, Outcome, ok, failed, get_record}
use saivage.Knowledge.Lifecycle.{Env, NewRecord, if_truthy}
use saivage.Knowledge.Lifecycle.Memories.{
  CreateMemoryInput, UpdateMemoryInput, SupersedeMemoryInput, create_memory, update_memory,
  archive_memory, delete_memory, supersede_memory,
}
use saivage.Knowledge.Reads.{ListMemoriesFilter, list_memories, get_memory}
use saivage.Knowledge.Reads.Search.{Hit, SearchContext, search_records}

-- `ToolCallContext`, with the role as `KnowledgeAgentRoleSchema` reads it
pub record ToolContext : Type 0 where
  pub role : Option Role
  pub agent_id : String
  pub stage_id : Option String
  pub channel_id : Option String

-- A call of a tool, with what the index answers to a search.
pub data MemoryTool : Type 0 where
  create_memory_tool : CreateMemoryInput → MemoryTool
  update_memory_tool : UpdateMemoryInput → MemoryTool
  supersede_memory_tool : SupersedeMemoryInput → MemoryTool
  archive_memory_tool delete_memory_tool : (id reason : String) → MemoryTool
  list_memories_tool : ListMemoriesFilter → MemoryTool
  get_memory_tool : (id : Option String) → (topic : Option Topic) → MemoryTool
  search_memories_tool : (limit : Option ℕ) → (hits : Option (List Hit)) → MemoryTool
  unknown_tool : MemoryTool

pub data ToolError : Type 0 where
  no_context unauthorized_role unauthorized_scope unauthorized_topic : ToolError
  rag_unavailable unknown_name : ToolError
  of_store : StoreError → ToolError

pub data Content : Type 0 where
  changed : (id : String) → Content
  memories : List KnowledgeRecord → Content
  one_memory : RecordRow → Content
  hits_found : List (RecordRow × ℕ) → Content

-- `{ content, isError }`, or a rejected promise; `out_of_fuel` is that of `getMemory`
pub data ToolResult : Type 0 where
  shown : Content → ToolResult
  refused : ToolError → ToolResult
  rejected out_of_fuel : ToolResult

abbrev pub is_librarian : Role → Bool
is_librarian librarian = true
is_librarian role = false

-- `LIBRARIAN_ALLOWED_SUBJECTS`, and the domain
abbrev pub librarian_topic : Option Topic → Bool
librarian_topic none = false
librarian_topic (some t) =
    t.domain == "rag"
    && (t.subject == "policy" || t.subject == "secret-incidents" || t.subject == "drift-incidents")

-- `enforceLibrarianTopic` passes
unfoldable pub topic_allowed : Role → Option Topic → Bool
topic_allowed role topic = not (is_librarian role) || librarian_topic topic

-- the topic in the JSON of a row
abbrev pub topic_of : Details → Option Topic
topic_of (of_memory topic keys body source_ref) = some topic
topic_of (of_skill name description triggers) = none

-- `gateRole` passes, with the columns of the matrix that the handler names
unfoldable pub gate_role : Role → Op → Bool
unfolding can_call
gate_role role op = can_call role op memory

-- `gateScope` passes
unfoldable pub gate_scope : Role → Op → Scope → Option String → Option String → Bool
unfolding check_scope
gate_scope role op scope scope_ref stage_id =
    check_scope role op memory scope scope_ref (record { stage_id = stage_id })

-- the reply to a writing call, and the tables after it
abbrev pub reply : Sidecar → Outcome (String × Sidecar) → ToolResult × Sidecar
reply s (ok (id, s')) = (shown (changed id), s')
reply s (failed e) = (refused (of_store e), s)

abbrev pub guard : Bool → ToolError → Sidecar → ToolResult × Sidecar → ToolResult × Sidecar
guard true e s r = r
guard false e s r = (refused e, s)

-- `...(scope_ref ? { scope_ref } : {})`
abbrev pub with_ref : NewRecord → NewRecord
with_ref n = record n { scope_ref = if_truthy n.scope_ref }

abbrev pub create_input : CreateMemoryInput → CreateMemoryInput
create_input input = record input { common = with_ref input.common }

-- the reason of the call is that of the new record too
abbrev pub supersede_input : SupersedeMemoryInput → SupersedeMemoryInput
supersede_input input = record input {
  new_record = record (input.new_record) {
    common = record (with_ref input.new_record.common) { reason = input.reason };
  };
}

-- the row that an update is about: of a memory
abbrev pub prior_memory : Option RecordRow → Option RecordRow
prior_memory none = none
prior_memory (some r) = if same_kind r.kind memory then some r else none

-- `case "update_memory"` past the gate of the role, with the row that it finds
abbrev pub update_prior :
    Env → Role → ToolContext → UpdateMemoryInput → Sidecar → Option RecordRow → ToolResult × Sidecar
update_prior env role ctx input s none = (refused (of_store not_found), s)
update_prior env role ctx input s (some prior) =
    guard (gate_scope role create prior.scope prior.scope_ref ctx.stage_id) unauthorized_scope s (
      guard (topic_allowed role (topic_of prior.json.details)) unauthorized_topic s
        (reply s (update_memory env input (record { role = role; agent_id = ctx.agent_id }) s)))

unfoldable pub update_gated :
    Env → Role → ToolContext → UpdateMemoryInput → Sidecar → ToolResult × Sidecar
unfolding get_record gate_scope topic_allowed update_memory
update_gated env role ctx input s =
    update_prior env role ctx input s (prior_memory (get_record s input.common.id))

abbrev pub got : Option (Option RecordRow) → ToolResult
got none = out_of_fuel
got (some none) = refused (of_store not_found)
got (some (some r)) = shown (one_memory r)

abbrev pub found : Option (List (RecordRow × ℕ)) → ToolResult
found none = refused rag_unavailable
found (some hits) = shown (hits_found hits)

-- the switch on the tool
unfoldable pub run_tool : Env → Role → ToolContext → MemoryTool → Sidecar → ToolResult × Sidecar
unfolding gate_role gate_scope topic_allowed create_memory update_gated supersede_memory
    archive_memory delete_memory list_memories get_memory search_records
run_tool env role ctx (create_memory_tool input) s =
    let n = input.common in
    guard (gate_role role create) unauthorized_role s (
      guard (gate_scope role create n.scope n.scope_ref ctx.stage_id) unauthorized_scope s (
        guard (topic_allowed role (some input.topic)) unauthorized_topic s (
          reply s (
            create_memory env (create_input input) (record { role = role; agent_id = ctx.agent_id })
              s))))
run_tool env role ctx (update_memory_tool input) s =
    guard (gate_role role create) unauthorized_role s (update_gated env role ctx input s)
run_tool env role ctx (supersede_memory_tool input) s =
    let n = input.new_record.common in
    guard (gate_role role supersede) unauthorized_role s (
      guard (gate_scope role supersede n.scope n.scope_ref ctx.stage_id) unauthorized_scope s (
        reply s (
          supersede_memory env (supersede_input input)
            (record { role = role; agent_id = ctx.agent_id }) s)))
run_tool env role ctx (archive_memory_tool id reason) s =
    guard (gate_role role archive) unauthorized_role s
      (reply s (archive_memory env id reason (record { role = role; agent_id = ctx.agent_id }) s))
run_tool env role ctx (delete_memory_tool id reason) s =
    guard (gate_role role archive) unauthorized_role s
      (reply s (delete_memory env id reason (record { role = role; agent_id = ctx.agent_id }) s))
run_tool env role ctx (list_memories_tool filter) s =
    guard (gate_role role read) unauthorized_role s (shown (memories (list_memories s filter)), s)
run_tool env role ctx (get_memory_tool id topic) s =
    guard (gate_role role read) unauthorized_role s
      (got (get_memory s (suc (length s.rows)) id topic), s)
run_tool env role ctx (search_memories_tool limit hits) s =
    guard (gate_role role search) unauthorized_role s (
      found (
          search_records s memory limit
            (record { stage_id = ctx.stage_id; channel_id = ctx.channel_id }) hits),
      s,
    )
run_tool env role ctx unknown_tool s = (refused unknown_name, s)

-- `makeKnowledgeMemoryHandler`
unfoldable pub memory_handler :
    Env → Option ToolContext → MemoryTool → Sidecar → ToolResult × Sidecar
unfolding run_tool
memory_handler env none tool s = (refused no_context, s)
memory_handler env (some ctx) tool s = elim ctx.role [
  | none ↦ (rejected, s)
  | some role ↦ run_tool env role ctx tool s
]
