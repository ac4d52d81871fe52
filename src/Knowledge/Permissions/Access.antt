-- ===== src/Knowledge/Permissions/Access.antt =====
-- `canCall` and `checkScope` of src/knowledge/permissions.ts together.
use saivage.Base.{String, ◌≡◌, ◌≢◌, ◌↔◌, ◌⊎◌, Bool, true, ◌&&◌, Option, none, some, arith, eq_iff}
use saivage.Knowledge.Permissions.{
  Role, planner, manager, coder, researcher, data_agent, inspector, librarian, Op, create, update,
  read, list, search, Kind, skill, memory, can_call, Scope, project, stage, ScopeContext,
  active_stage, worker_scope, check_scope,
}

-- `canCall` and then `checkScope`.
abbrev pub allowed : Role → Op → Kind → Scope → Option String → ScopeContext → Bool
allowed role op kind scope scope_ref ctx =
    can_call role op kind && check_scope role op kind scope scope_ref ctx

abbrev pub IsRead : Op → Type 0
IsRead op = (op ≡ read) ⊎ (op ≡ list) ⊎ (op ≡ search)

-- A role whose writes are confined: to the current stage for workers, to the project for the
-- librarian.
abbrev pub Confined : Role → Scope → Option String → ScopeContext → Type 0
Confined librarian scope scope_ref ctx = scope ≡ project
Confined coder scope scope_ref ctx =
    (scope ≡ stage) × (scope_ref ≡ ctx.stage_id) × (scope_ref ≢ none) × (scope_ref ≢ some "")
Confined researcher scope scope_ref ctx =
    (scope ≡ stage) × (scope_ref ≡ ctx.stage_id) × (scope_ref ≢ none) × (scope_ref ≢ some "")
Confined role scope scope_ref ctx = ⊥

-- Who may change what, said by role: the manager everything, the planner all memory, the inspector
-- all but new and changed skills, workers and the librarian new and changed memory where they are
-- confined to.
abbrev pub MayWrite : Role → Op → Kind → Scope → Option String → ScopeContext → Type 0
MayWrite manager op kind scope scope_ref ctx = Unit
MayWrite planner op kind scope scope_ref ctx = kind ≡ memory
MayWrite inspector op kind scope scope_ref ctx = (kind ≡ memory) ⊎ ((op ≢ create) × (op ≢ update))
MayWrite role op kind scope scope_ref ctx =
    (kind ≡ memory) × ((op ≡ create) ⊎ (op ≡ update)) × Confined role scope scope_ref ctx

worker_scope_iff :
    (scope : Scope) (scope_ref id : Option String)
    → (worker_scope scope scope_ref (active_stage id) ≡ true)
      ↔ ((scope ≡ stage) × (scope_ref ≡ id) × (scope_ref ≢ none) × (scope_ref ≢ some ""))
worker_scope_iff scope scope_ref none = ground arith
worker_scope_iff scope none (some i) = ground arith
worker_scope_iff scope (some r) (some i) = ground (arith, eq_iff r i, eq_iff i "", eq_iff r "")

abbrev pub IsWrite : Op → Type 0
IsWrite op = (op ≢ read) × (op ≢ list) × (op ≢ search)

-- A write passes both checks exactly for the roles, kinds and scopes of `MayWrite`: the manager may
-- write everything, the planner memory, the inspector memory and all but new and changed skills, a
-- coder or researcher new and changed memory of its current stage, and the librarian new and changed
-- memory of the project.
pub write_allowed_iff :
    (role : Role) (op : Op) (kind : Kind) (scope : Scope) (scope_ref : Option String)
    (ctx : ScopeContext)
    → IsWrite op
    → (allowed role op kind scope scope_ref ctx ≡ true) ↔ MayWrite role op kind scope scope_ref ctx
unfolding can_call check_scope
write_allowed_iff coder op kind scope scope_ref ctx w =
    ground (arith, worker_scope_iff scope scope_ref ctx.stage_id)
write_allowed_iff researcher op kind scope scope_ref ctx w =
    ground (arith, worker_scope_iff scope scope_ref ctx.stage_id)
write_allowed_iff role op kind scope scope_ref ctx w = ground arith

-- A read passes both checks, in every scope, except the data agent's of memory.
pub read_allowed_iff :
    (role : Role) (op : Op) (kind : Kind) (scope : Scope) (scope_ref : Option String)
    (ctx : ScopeContext)
    → IsRead op
    → (allowed role op kind scope scope_ref ctx ≡ true) ↔ ((role ≢ data_agent) ⊎ (kind ≡ skill))
unfolding can_call check_scope
read_allowed_iff coder op kind scope scope_ref ctx r = ground arith
read_allowed_iff role op kind scope scope_ref ctx r = ground arith
