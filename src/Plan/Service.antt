-- ===== src/Plan/Service.antt =====
-- `PlanService` of src/mcp/plan-server.ts: the methods on plan.json. Writers run one at a time
-- through `opQueue`, so that a method is a function from the state before to the state after.
use saivage.Base.{
  ℕ, ◌-◌, String, Bool, true, false, not, Option, none, some, List, [], ◌∷◌, map, any, find?,
  length, drop, if◌then◌else◌, ◌==◌,
}
use saivage.Plan.Document.{Stage, StageResult, CompletedStage, PlanDocument, document_ok}
use saivage.Plan.Reply.{
  plan_not_found, invalid_document, io_failure, done, thrown, Method, pure, require, ◌>>◌,
}

-- What the git callback does: it returns a sha, or rejects with a message.
pub data GitReply : Type 0 where
  committed rejected : String → GitReply

-- What a call finds outside the service: the clock, whether the file system takes the write,
-- whether `archiveStage` fails, and the git callback.
pub record Env : Type 0 where
  pub now : String
  pub start_now : String
  pub write_ok : Bool
  pub archive_ok : Bool
  pub git : GitReply

-- A call of `StageRunStore.markStageCompleted`.
pub record Completion : Type 0 where
  pub stage_id : String
  pub result : StageResult
  pub archived : Bool
  pub at : String

-- A call of `archiveStage`, and whether it returned; one that threw is logged and archives nothing.
pub record Archival : Type 0 where
  pub stage_id : String
  pub returned : Bool

-- `disk` is plan.json; `archives` and `completions` are the calls made to the stores beside it.
pub record Service : Type 0 where
  pub doc : Option PlanDocument
  pub disk : Option PlanDocument
  pub has_stage_runs : Bool
  pub has_git : Bool
  pub last_commit_sha : Option String
  pub archives : List Archival
  pub completions : List Completion

pub record ActivePlanView : Type 0 where
  pub updated_at : String
  pub current_stage_id : Option String
  pub stages : List Stage

-- `activePlanView`
unfoldable pub active_view : PlanDocument → ActivePlanView
active_view doc = record {
  updated_at = doc.updated_at;
  current_stage_id = doc.current_stage_id;
  stages = doc.stages;
}

-- `planHistoryView`: `slice(-lastN)` keeps the last ones
unfoldable pub history_view : PlanDocument → Option ℕ → List CompletedStage
history_view doc none = doc.history
history_view doc (some n) = drop (length doc.history - n) doc.history

-- `stage.started_at` is truthy.
abbrev pub is_started : Option String → Bool
is_started none = false
is_started (some t) = not (t == "")

-- `stampStarted`
unfoldable pub stamp_started : Env → Stage → Stage
stamp_started env stage =
    if is_started stage.started_at then stage else record stage { started_at = some env.start_now }

-- `new Map(existing.map((stage) => [stage.id, stage])).get(id)`: the last entry of a key counts
unfoldable pub find_last : String → List Stage → Option Stage
find_last id [] = none
find_last id (s ∷ rest) = elim (find_last id rest) [
  | none ↦ if s.id == id then some s else none
  | some t ↦ some t
]

abbrev pub inherit_start : Stage → Option Stage → Stage
inherit_start stage none = stage
inherit_start stage (some prev) =
    if is_started prev.started_at then record stage { started_at = prev.started_at } else stage

abbrev pub preserve_one : List Stage → Stage → Option String → Stage
preserve_one existing stage (some t) = stage
preserve_one existing stage none = inherit_start stage (find_last stage.id existing)

-- `preserveStartedAt`
unfoldable pub preserve_started_at : List Stage → List Stage → List Stage
unfolding find_last
preserve_started_at incoming existing =
    map (λ stage. preserve_one existing stage stage.started_at) incoming

abbrev pub has_stage : String → List Stage → Bool
has_stage id = any (λ s. s.id == id)

abbrev pub has_completed : String → List CompletedStage → Bool
has_completed id = any (λ s. s.id == id)

abbrev pub find_stage : String → List Stage → Option Stage
find_stage id = find? (λ s. s.id == id)

-- `findIndex`, then an assignment at that index
unfoldable pub stamp_stage : Env → String → List Stage → List Stage
unfolding stamp_started
stamp_stage env id [] = []
stamp_stage env id (s ∷ rest) =
    if s.id == id then stamp_started env s ∷ rest else s ∷ stamp_stage env id rest

-- `findIndex`, then `splice(idx, 1)`
unfoldable pub remove_stage : String → List Stage → List Stage
remove_stage id [] = []
remove_stage id (s ∷ rest) = if s.id == id then rest else s ∷ remove_stage id rest

-- `current_stage_id = null` if it was `id`
abbrev pub clear_current : String → Option String → Option String
clear_current id none = none
clear_current id (some c) = if c == id then none else some c

abbrev pub stamp_current : Env → Option String → List Stage → List Stage
stamp_current env none stages = stages
stamp_current env (some id) stages = stamp_stage env id stages

-- The id is null or one of the stages'.
abbrev pub names_stage : Option String → List Stage → Bool
names_stage none stages = true
names_stage (some id) stages = has_stage id stages

-- `this.doc`, or PLAN_NOT_FOUND
abbrev pub get_doc : Method Service PlanDocument
get_doc s = require s.doc plan_not_found s

-- `writeDoc`: validates, writes by rename, and then updates the cache
unfoldable pub write_doc : Env → PlanDocument → Method Service (Unit {0})
write_doc env next s =
    if document_ok next
    then if env.write_ok
      then (done tt, record s { doc = some next; disk = some next })
      else (thrown io_failure, s)
    else (thrown invalid_document, s)

-- `writeDoc`, and the view of what was written
abbrev pub save : Env → PlanDocument → Method Service ActivePlanView
save env next = do write_doc env next; pure (active_view next)

-- `init`: what plan.json holds, if the schema accepts it
unfoldable pub hydrate : Method Service (Unit {0})
hydrate s = elim s.disk [
  | none ↦ (done tt, record s { doc = none })
  | some d ↦
      if document_ok d then (done tt, record s { doc = some d }) else (thrown invalid_document, s)
]
