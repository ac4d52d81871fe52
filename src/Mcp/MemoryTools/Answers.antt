-- ===== src/Mcp/MemoryTools/Answers.antt =====
-- The answers and refusals of the handler of src/mcp/knowledgeMemory.ts.
use saivage.Base.{
  ℕ, suc, String, ◌≡◌, ◌≢◌, refl, sym, subst, ◌↔◌, ◌<◌, Bool, true, false, Option, none, some, List,
  arith, length, inl, inr, Option-cases,
}
use saivage.Knowledge.Permissions.{Role, create, supersede}
use saivage.Knowledge.Records.{Topic, RecordRow, Sidecar}
use saivage.Knowledge.Sidecar.{Outcome, ok, failed, get_record}
use saivage.Knowledge.Lifecycle.{Env}
use saivage.Knowledge.Lifecycle.Memories.{
  UpdateMemoryInput, create_memory, update_memory, supersede_memory,
}
use saivage.Knowledge.Reads.{get_memory}
use saivage.Knowledge.Reads.Chain.{get_memory_ends}
use saivage.Mcp.MemoryTools.{
  ToolContext, MemoryTool, create_memory_tool, update_memory_tool, supersede_memory_tool,
  archive_memory_tool, delete_memory_tool, list_memories_tool, get_memory_tool,
  search_memories_tool, unknown_tool, ToolError, ToolResult, Content, shown, refused, rejected,
  out_of_fuel, reply, guard, prior_memory, update_prior, update_gated, got, found, run_tool,
  gate_role, gate_scope, create_input, supersede_input, unauthorized_role, topic_allowed, topic_of,
  unauthorized_scope, unauthorized_topic, memory_handler,
}

module _ (s : Sidecar) where
  -- an answer; and where it is a refusal, the tables are as they were
  record Answered (r : ToolResult × Sidecar) : Type 0 where
    fueled : r.0 ≢ out_of_fuel
    resolved : r.0 ≢ rejected
    unchanged : (e : ToolError) → r.0 ≡ refused e → r.1 ≡ s

  guard-Answered :
      (c : Bool) (e : ToolError) (r : ToolResult × Sidecar) → Answered r → Answered (guard c e s r)
  guard-Answered true e r a = a
  guard-Answered false e r a = record {
    fueled = ground arith;
    resolved = ground arith;
    unchanged = λ f h. refl;
  }

  reply-Answered : (o : Outcome (String × Sidecar)) → Answered (reply s o)
  reply-Answered (ok (a, s')) = record {
    fueled = ground arith;
    resolved = ground arith;
    unchanged = λ f h. absurd (ground arith);
  }
  reply-Answered (failed e) = record {
    fueled = ground arith;
    resolved = ground arith;
    unchanged = λ f h. refl;
  }

  shown-Answered : (c : Content) → Answered (shown c, s)
  shown-Answered c = record {
    fueled = ground arith;
    resolved = ground arith;
    unchanged = λ f h. refl;
  }

  prior-Answered :
      (env : Env) (role : Role) (ctx : ToolContext) (input : UpdateMemoryInput)
      (prior : Option RecordRow)
      → Answered (update_prior env role ctx input s prior)
  prior-Answered env role ctx input none = record {
    fueled = ground arith;
    resolved = ground arith;
    unchanged = λ f h. refl;
  }
  prior-Answered env role ctx input (some r) =
      guard-Answered (gate_scope role create r.scope r.scope_ref ctx.stage_id) unauthorized_scope _
        (guard-Answered (topic_allowed role (topic_of r.json.details)) unauthorized_topic _ (
          reply-Answered
            (update_memory env input (record { role = role; agent_id = ctx.agent_id }) s)))

  got-Answered : (r : Option RecordRow) → Answered (got (some r), s)
  got-Answered none = record {
    fueled = ground arith;
    resolved = ground arith;
    unchanged = λ f h. refl;
  }
  got-Answered (some r) = record {
    fueled = ground arith;
    resolved = ground arith;
    unchanged = λ f h. refl;
  }

  get-Answered :
      (id : Option String) (topic : Option Topic)
      → Answered (got (get_memory s (suc (length s.rows)) id topic), s)
  get-Answered id topic =
      let enough : length s.rows < suc (length s.rows) = omega arith in
      let (r, e, sound) = get_memory_ends s (suc (length s.rows)) id topic enough in
      subst (λ x. Answered (got x, s)) (sym e) (got-Answered r)

  found-Answered : (o : Option (List (RecordRow × ℕ))) → Answered (found o, s)
  found-Answered none = record {
    fueled = ground arith;
    resolved = ground arith;
    unchanged = λ f h. refl;
  }
  found-Answered (some hits) = record {
    fueled = ground arith;
    resolved = ground arith;
    unchanged = λ f h. refl;
  }

  tool-Answered :
      (env : Env) (role : Role) (ctx : ToolContext) (tool : MemoryTool)
      → Answered (run_tool env role ctx tool s)
  unfolding run_tool update_gated
  tool-Answered env role ctx (create_memory_tool input) =
      let n = input.common in
      guard-Answered (gate_role role create) unauthorized_role _ (
        guard-Answered (gate_scope role create n.scope n.scope_ref ctx.stage_id) unauthorized_scope
          _
          (guard-Answered (topic_allowed role (some input.topic)) unauthorized_topic _ (
            reply-Answered (
              create_memory env (create_input input)
                (record { role = role; agent_id = ctx.agent_id }) s))))
  tool-Answered env role ctx (update_memory_tool input) =
      guard-Answered _ _ _
        (prior-Answered env role ctx input (prior_memory (get_record s input.common.id)))
  tool-Answered env role ctx (supersede_memory_tool input) =
      let n = input.new_record.common in
      guard-Answered (gate_role role supersede) unauthorized_role _ (
        guard-Answered (gate_scope role supersede n.scope n.scope_ref ctx.stage_id)
          unauthorized_scope _
          (reply-Answered (
            supersede_memory env (supersede_input input)
              (record { role = role; agent_id = ctx.agent_id }) s)))
  tool-Answered env role ctx (archive_memory_tool id reason) =
      guard-Answered _ _ _ (reply-Answered _)
  tool-Answered env role ctx (delete_memory_tool id reason) =
      guard-Answered _ _ _ (reply-Answered _)
  tool-Answered env role ctx (list_memories_tool filter) = guard-Answered _ _ _ (shown-Answered _)
  tool-Answered env role ctx (get_memory_tool id topic) =
      guard-Answered _ _ _ (get-Answered id topic)
  tool-Answered env role ctx (search_memories_tool limit hits) =
      guard-Answered _ _ _ (found-Answered _)
  tool-Answered env role ctx unknown_tool = record {
    fueled = ground arith;
    resolved = ground arith;
    unchanged = λ f h. refl;
  }

-- The context names no role that there is.
abbrev pub UnknownRole : Option ToolContext → Type 0
UnknownRole none = ⊥
UnknownRole (some ctx) = ctx.role ≡ none

-- The handler always answers, the walk along supersessions included; its promise is rejected exactly if
-- the context names no role that there is; and a refusal leaves the tables as they were.
pub memory_handler_answers :
    (env : Env) (ctx : Option ToolContext) (tool : MemoryTool) (s : Sidecar)
    → ((memory_handler env ctx tool s).0 ≢ out_of_fuel)
      × (((memory_handler env ctx tool s).0 ≡ rejected) ↔ UnknownRole ctx)
      × ((e : ToolError)
          → (memory_handler env ctx tool s).0 ≡ refused e
          → (memory_handler env ctx tool s).1 ≡ s)
unfolding memory_handler
memory_handler_answers env none tool s = (ground arith, ground arith, λ f h. refl)
memory_handler_answers env (some ctx) tool s = elim (Option-cases ctx.role) [
  | inl e ↦ (ground arith, ground arith, ground arith)
  | inr (role, e) ↦
      let runs : memory_handler env (some ctx) tool s ≡ run_tool env role ctx tool s =
        ground arith in
      let a = tool-Answered s env role ctx tool in
      (
        ground (arith, runs, a.fueled),
        ground (arith, runs, a.resolved),
        λ f h. ground (arith, runs, a.unchanged f),
      )
]
