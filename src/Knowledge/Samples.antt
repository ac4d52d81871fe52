-- ===== src/Knowledge/Samples.antt =====
-- The theorems on src/knowledge/permissions.ts at concrete inputs.
use saivage.Base.{some, arith}
use saivage.Knowledge.Permissions.{create, list, ScopeContext}
use saivage.Knowledge.Permissions.Access.{IsRead, IsWrite}

abbrev in_stage_1 : ScopeContext
in_stage_1 = record { stage_id = some "stg-1" }

create-IsWrite : IsWrite create
create-IsWrite = ground arith

list-IsRead : IsRead list
list-IsRead = ground arith
