-- ===== src/Mcp/MemoryTools/Gates.antt =====
-- The gates of the handler of src/mcp/knowledgeMemory.ts.
use saivage.Base.{String, ◌≡◌, refl, true, Option, none, some, arith, eq_iff}
use saivage.Knowledge.Permissions.{
  Role, planner, manager, inspector, coder, researcher, create, supersede, archive, memory, Scope,
  ScopeContext,
}
use saivage.Knowledge.Permissions.Access.{allowed, MayWrite, IsWrite, write_allowed_iff}
use saivage.Knowledge.Records.{RecordRow, same_kind}
use saivage.Knowledge.Lifecycle.{if_truthy}
use saivage.Mcp.MemoryTools.{ToolContext, topic_allowed, gate_role, gate_scope}
use saivage.Mcp.MemoryTools.Confined.{scope_context, Within}

create-IsWrite : IsWrite create
create-IsWrite = ground arith

module _ (role : Role) (ctx : ToolContext) where
  -- the two gates of a creation or an update
  pub gates-MayWrite :
      (scope : Scope) (ref : Option String)
      → gate_role role create ≡ true
      → gate_scope role create scope ref ctx.stage_id ≡ true
      → MayWrite role create memory scope ref (scope_context role ctx)
  unfolding gate_role gate_scope
  gates-MayWrite scope ref g h =
      let both : allowed role create memory scope ref (scope_context role ctx) ≡ true =
        ground arith in
      (write_allowed_iff role create memory scope ref (scope_context role ctx) create-IsWrite).0
        both

-- A role that may supersede or archive may write every memory.
pub supersede-Within :
    (role : Role) (ctx : ToolContext) (r : RecordRow)
    → gate_role role supersede ≡ true
    → same_kind r.kind memory ≡ true
    → Within role ctx r
unfolding gate_role topic_allowed
supersede-Within planner ctx r g k = (k, ground arith, refl)
supersede-Within manager ctx r g k = (k, ground arith, refl)
supersede-Within inspector ctx r g k = (k, ground arith, refl)
supersede-Within role ctx r g k = absurd (ground arith)

pub archive-supersede :
    (role : Role) → gate_role role archive ≡ true → gate_role role supersede ≡ true
unfolding gate_role
archive-supersede role g = ground arith

-- An empty reference is dropped, but a role that is confined to its stage has given that stage's.
pub MayWrite-if_truthy :
    (role : Role) (ctx : ScopeContext) (scope : Scope) (ref : Option String)
    → MayWrite role create memory scope ref ctx
    → MayWrite role create memory scope (if_truthy ref) ctx
MayWrite-if_truthy role ctx scope none w = w
MayWrite-if_truthy coder ctx scope (some r) w = ground (arith, eq_iff r "")
MayWrite-if_truthy researcher ctx scope (some r) w = ground (arith, eq_iff r "")
MayWrite-if_truthy role ctx scope (some r) w = ground arith
