-- ===== src/Plan/Calls.antt =====
-- The tool calls on plan.json as one type, and their runs: `dispatchPlanToolCall` of
-- src/mcp/plan-registry.ts, with the arguments read at the types of the handlers.
pub mod Safety
pub mod Totality
pub mod History
pub mod Lifecycle
pub mod Starts
use saivage.Base.{ℕ, String, Option, List, [], ◌∷◌}
use saivage.Plan.Document.{Stage, CompletedStage}
use saivage.Plan.Reply.{validation_error, Reply, done, refused, thrown}
use saivage.Plan.Service.{Env, Service, write_doc}
use saivage.Plan.Methods.{
  CompleteArgs, plan_get, plan_get_stage, plan_get_current_stage, plan_set_stages, plan_add_stage,
  plan_remove_stage, plan_set_current, plan_complete_stage, plan_append_history, plan_get_history,
  plan_init, plan_commit, plan_done,
}

-- `append_history` is the offline backfill's; `unknown` is a name that the registry does not have.
pub data PlanCall : Type 0 where
  get get_current unknown : PlanCall
  get_stage remove_stage finish : String → PlanCall
  get_history : Option ℕ → PlanCall
  set_stages : List Stage → Option String → PlanCall
  add_stage : Stage → PlanCall
  set_current : Option String → PlanCall
  complete_stage : CompleteArgs → PlanCall
  append_history : CompletedStage → PlanCall
  start : List Stage → PlanCall
  commit : PlanCall

-- Whether the call returned, and not what.
abbrev pub erase : {A : Type 0} → Reply A → Reply (Unit {0})
erase (done a) = done tt
erase (refused c) = refused c
erase (thrown f) = thrown f

abbrev erased : {A : Type 0} → Reply A × Service → Reply (Unit {0}) × Service
erased r = (erase r.0, r.1)

unfoldable pub call : Env → PlanCall → Service → Reply (Unit {0}) × Service
call env get s = erased (plan_get s)
call env get_current s = erased (plan_get_current_stage s)
call env unknown s = (refused validation_error, s)
call env (get_stage id) s = erased (plan_get_stage id s)
call env (remove_stage id) s = erased (plan_remove_stage env id s)
call env (finish reason) s = plan_done reason s
call env (get_history last_n) s = erased (plan_get_history last_n s)
call env (set_stages stages current) s = erased (plan_set_stages env stages current s)
call env (add_stage stage) s = erased (plan_add_stage env stage s)
call env (set_current current) s = erased (plan_set_current env current s)
call env (complete_stage args) s = erased (plan_complete_stage env args s)
call env (append_history c) s = erased (plan_append_history env c s)
call env (start stages) s = erased (plan_init env stages s)
call env commit s = erased (plan_commit env s)

-- The calls that the queue runs, one after the other.
pub run : List (Env × PlanCall) → Service → Service
unfolding call
run [] s = s
run ((env, c) ∷ rest) s = run rest (call env c s).1

-- To unfold this is to unfold every method.
unfoldable pub methods : Unit {0}
unfolding plan_get plan_get_stage plan_get_current_stage plan_set_stages plan_add_stage
    plan_remove_stage plan_set_current plan_complete_stage plan_append_history plan_get_history
    plan_init plan_commit plan_done write_doc call
methods = tt
