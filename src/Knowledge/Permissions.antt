-- ===== src/Knowledge/Permissions.antt =====
-- src/knowledge/permissions.ts: the matrix, `canCall` and `checkScope`.
-- The texts of the refusals are left out.
pub mod Access
use saivage.Base.{String, Bool, true, false, not, ◌||◌, Option, none, some, if◌then◌else◌, ◌==◌}

-- `KnowledgeAgentRole`
pub data Role : Type 0 where
  planner manager coder researcher data_agent inspector reviewer designer critic chat librarian :
      Role

-- `KnowledgeOp`
pub data Op : Type 0 where
  create update supersede archive delete read list search : Op

-- `KnowledgeKind`
pub data Kind : Type 0 where
  skill memory : Kind

-- `AccessCell`: "Y", "Y†", "-"
pub data Cell : Type 0 where
  full scoped denied : Cell

-- the cells of a role that reads everything and writes nothing
abbrev reads_only : Op → Kind → Cell
reads_only read kind = full
reads_only list kind = full
reads_only search kind = full
reads_only op kind = denied

-- the cells of a role that may besides create and update memory within its scope
abbrev writes_scoped : Op → Kind → Cell
writes_scoped create memory = scoped
writes_scoped update memory = scoped
writes_scoped op kind = reads_only op kind

-- the rows, with the columns `<op>-<kind>`
unfoldable pub matrix : Role → Op → Kind → Cell
matrix planner create skill = denied
matrix planner update skill = denied
matrix planner supersede skill = denied
matrix planner archive skill = denied
matrix planner delete skill = denied
matrix planner op kind = full
matrix manager op kind = full
matrix coder op kind = writes_scoped op kind
matrix researcher op kind = writes_scoped op kind
matrix data_agent read skill = full
matrix data_agent list skill = full
matrix data_agent search skill = full
matrix data_agent op kind = denied
matrix inspector create skill = denied
matrix inspector update skill = denied
matrix inspector op kind = full
matrix reviewer op kind = reads_only op kind
matrix designer op kind = reads_only op kind
matrix critic op kind = reads_only op kind
matrix chat op kind = reads_only op kind
matrix librarian op kind = writes_scoped op kind

-- `opForMatrix`
abbrev column : Op → Op
column update = create
column delete = archive
column list = read
column op = op

unfoldable pub cell_for : Role → Op → Kind → Cell
unfolding matrix
cell_for role op kind = matrix role (column op) kind

abbrev is_denied : Cell → Bool
is_denied denied = true
is_denied cell = false

abbrev pub is_scoped : Cell → Bool
is_scoped scoped = true
is_scoped cell = false

-- `canCall`
unfoldable pub can_call : Role → Op → Kind → Bool
unfolding cell_for
can_call role op kind = not (is_denied (cell_for role op kind))

pub data Scope : Type 0 where
  project stage session : Scope

-- `ctx.stageId`
pub record ScopeContext : Type 0 where
  pub stage_id : Option String

-- `!ctx.stageId`
abbrev pub active_stage : Option String → Option String
active_stage none = none
active_stage (some id) = if id == "" then none else some id

-- `scope_ref === id`
abbrev pub is_ref : Option String → String → Bool
is_ref none id = false
is_ref (some r) id = r == id

abbrev is_project : Scope → Bool
is_project project = true
is_project scope = false

abbrev is_stage : Scope → Bool
is_stage stage = true
is_stage scope = false

-- what a worker may write: its own stage
abbrev worker_scope : Scope → Option String → Option String → Bool
worker_scope scope scope_ref none = false
worker_scope scope scope_ref (some id) = if is_stage scope then is_ref scope_ref id else false

abbrev scoped_ok : Role → Scope → Option String → Option String → Bool
scoped_ok librarian scope scope_ref active = is_project scope
scoped_ok role scope scope_ref active = worker_scope scope scope_ref active

-- `checkScope(...).ok`
unfoldable pub check_scope : Role → Op → Kind → Scope → Option String → ScopeContext → Bool
unfolding cell_for
check_scope role op kind scope scope_ref ctx =
    if is_scoped (cell_for role op kind)
    then scoped_ok role scope scope_ref (active_stage ctx.stage_id)
    else true
