-- ===== src/Plan/Calls/Safety.antt =====
-- The cached plan and plan.json under the calls of src/mcp/plan-registry.ts, failures included.
use saivage.Base.{◌≡◌, Bool, true, false, Option, none, some, List, [], ◌∷◌, arith}
use saivage.Plan.Document.{PlanDocument, document_ok}
use saivage.Plan.Reply.{Reply, done, refused, thrown}
use saivage.Plan.Service.{Env, Service}
use saivage.Plan.Calls.{PlanCall, get, call, run, methods}

abbrev pub held_ok : Option PlanDocument → Bool
held_ok none = true
held_ok (some d) = document_ok d

pub record IsReady (s : Service) : Type 0 where
  pub coherent : s.disk ≡ s.doc
  pub valid : held_ok s.doc ≡ true

abbrev pub returned : {A : Type 0} → Reply A → Bool
returned (done a) = true
returned (refused c) = false
returned (thrown f) = false

pub call-IsReady : (env : Env) (c : PlanCall) {s : Service} → IsReady s → IsReady (call env c s).1
unfolding methods
call-IsReady env get r = ground arith
call-IsReady env c r = ground arith

-- From a state whose cached plan equals plan.json and is null or valid, any calls lead to such a
-- state, whatever fails on the way.
pub run-IsReady : (calls : List (Env × PlanCall)) (s : Service) → IsReady s → IsReady (run calls s)
unfolding run
run-IsReady [] s r = r
run-IsReady ((env, c) ∷ rest) s r = run-IsReady rest (call env c s).1 (call-IsReady env c r)

-- A call that does not return leaves the cached plan and plan.json as they were.
pub call_failed :
    (env : Env) (c : PlanCall) (s : Service)
    → returned (call env c s).0 ≡ false
    → ((call env c s).1.doc ≡ s.doc) × ((call env c s).1.disk ≡ s.disk)
unfolding methods
call_failed env get s h = ground arith
call_failed env c s h = ground arith
