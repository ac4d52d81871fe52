-- ===== src/Mcp/MemoryTools/Handler.antt =====
-- The handler of src/mcp/knowledgeMemory.ts and the records that it changes.
use saivage.Base.{String, ◌≡◌, refl, sym, subst, Bool, true, false, Option, none, some, arith}
use saivage.Knowledge.Permissions.{Role, create, supersede, memory}
use saivage.Knowledge.Records.{RecordRow, Sidecar, same_kind}
use saivage.Knowledge.Sidecar.{get_record}
use saivage.Knowledge.Sidecar.Rows.{find_row}
use saivage.Knowledge.Lifecycle.{Env}
use saivage.Knowledge.Lifecycle.Memories.{UpdateMemoryInput}
use saivage.Mcp.MemoryTools.{
  ToolContext, MemoryTool, create_memory_tool, update_memory_tool, supersede_memory_tool,
  archive_memory_tool, delete_memory_tool, list_memories_tool, get_memory_tool,
  search_memories_tool, unknown_tool, ToolError, ToolResult, guard, create_input, supersede_input,
  gate_role, gate_scope, prior_memory, update_prior, update_gated, run_tool, memory_handler,
}
use saivage.Mcp.MemoryTools.Confined.{Within, Confines, Confines-same}
use saivage.Mcp.MemoryTools.Gates.{gates-MayWrite, archive-supersede, MayWrite-if_truthy}
use saivage.Mcp.MemoryTools.Operations.{
  create-Confines, update-Confines, archive-Confines, delete-Confines, supersede-Confines,
}

prior_memory-found :
    (id : String) (x : Sidecar) (r : RecordRow)
    → prior_memory (get_record x id) ≡ some r
    → (find_row id x.rows ≡ some r) × (same_kind r.kind memory ≡ true)
unfolding get_record
prior_memory-found id x r e = ground arith

module _ (role : Role) (ctx : ToolContext) (s : Sidecar) where
  guard-Confines :
      (c : Bool) (e : ToolError) (r : ToolResult × Sidecar)
      → (c ≡ true → Confines role ctx s r.1)
      → Confines role ctx s (guard c e s r).1
  guard-Confines true e r f = f refl
  guard-Confines false e r f = Confines-same role ctx s

  prior-Confines :
      (env : Env) (input : UpdateMemoryInput) (prior : Option RecordRow)
      → ((r : RecordRow)
          → prior ≡ some r
          → (find_row input.common.id s.rows ≡ some r) × (same_kind r.kind memory ≡ true))
      → gate_role role create ≡ true
      → Confines role ctx s (update_prior env role ctx input s prior).1
  prior-Confines env input none is g = Confines-same role ctx s
  prior-Confines env input (some r) is g =
      let (found, k) = is r refl in
      guard-Confines _ _ _ (λ in_scope. guard-Confines _ _ _ (λ on_topic.
        update-Confines role ctx s env input _ (λ r' f.
          let same : r ≡ r' = ground arith in
          subst (Within role ctx) same
            (k, gates-MayWrite role ctx r.scope r.scope_ref g in_scope, on_topic))))

  gated-Confines :
      (env : Env) (input : UpdateMemoryInput)
      → gate_role role create ≡ true
      → Confines role ctx s (update_gated env role ctx input s).1
  unfolding update_gated
  gated-Confines env input g =
      prior-Confines env input (prior_memory (get_record s input.common.id))
        (λ r e. prior_memory-found input.common.id s r e) g

  tool-Confines :
      (env : Env) (tool : MemoryTool) → Confines role ctx s (run_tool env role ctx tool s).1
  unfolding run_tool
  tool-Confines env (create_memory_tool input) = guard-Confines _ _ _ (λ g.
      guard-Confines _ _ _ (λ in_scope. guard-Confines _ _ _ (λ on_topic.
        create-Confines role ctx s env (create_input input) _
          (MayWrite-if_truthy role _ input.common.scope input.common.scope_ref
            (gates-MayWrite role ctx input.common.scope input.common.scope_ref g in_scope))
          on_topic)))
  tool-Confines env (update_memory_tool input) =
      guard-Confines _ _ _ (λ g. gated-Confines env input g)
  tool-Confines env (supersede_memory_tool input) =
      let n = input.new_record.common in
      guard-Confines _ _ _ (λ g.
        guard-Confines (gate_scope role supersede n.scope n.scope_ref ctx.stage_id) _ _
          (λ in_scope. supersede-Confines role ctx s env (supersede_input input) _ g))
  tool-Confines env (archive_memory_tool id reason) =
      guard-Confines _ _ _
        (λ g. archive-Confines role ctx s env id reason _ (archive-supersede role g))
  tool-Confines env (delete_memory_tool id reason) =
      guard-Confines _ _ _
        (λ g. delete-Confines role ctx s env id reason _ (archive-supersede role g))
  tool-Confines env (list_memories_tool filter) =
      guard-Confines _ _ _ (λ g. Confines-same role ctx s)
  tool-Confines env (get_memory_tool id topic) =
      guard-Confines _ _ _ (λ g. Confines-same role ctx s)
  tool-Confines env (search_memories_tool limit hits) =
      guard-Confines _ _ _ (λ g. Confines-same role ctx s)
  tool-Confines env unknown_tool = Confines-same role ctx s

-- Whatever tool an agent calls, each record that has changed in more than its mark for the index was, if
-- there was one of that id, and is, if there is one, a memory that its role may write: for a coder or
-- researcher one of its own stage, for the librarian one of the project on its topics, for the manager, the
-- planner and the inspector any memory, and for the other roles none.
pub memory_handler-Confines :
    (env : Env) (ctx : ToolContext) (tool : MemoryTool) (s : Sidecar) (role : Role)
    → ctx.role ≡ some role
    → Confines role ctx s (memory_handler env (some ctx) tool s).1
unfolding memory_handler
memory_handler-Confines env ctx tool s role e =
    let runs : memory_handler env (some ctx) tool s ≡ run_tool env role ctx tool s = ground arith in
    subst (λ x. Confines role ctx s x.1) (sym runs) (tool-Confines role ctx s env tool)
