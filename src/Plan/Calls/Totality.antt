-- ===== src/Plan/Calls/Totality.antt =====
-- The rejected promises of the plan's methods in src/mcp/plan-server.ts.
use saivage.Base.{
  String, ◌≡◌, true, false, ◌||◌, Option, none, some, List, [], ◌∷◌, ◌++◌, arith, inl, inr,
  Bool-cases, Option-cases, all, Distinct, ◌↔◌,
}
use saivage.Plan.Document.{
  Stage, CompletedStage, PlanDocument, stage_ok, stage_ids, history_ids, document_ok,
}
use saivage.Plan.Document.Valid.{document_ok_iff}
use saivage.Plan.Reply.{thrown, Fault, invalid_document}
use saivage.Plan.Service.{
  Env, Service, write_doc, has_stage, has_completed, find_stage, clear_current, stamp_current,
  names_stage,
}
use saivage.Plan.Service
use saivage.Plan.Methods.{CompleteArgs, started, complete, completed_doc}
use saivage.Plan.Edits.{
  add-IsValid, remove-IsValid, set_current-IsValid, append-IsValid, find_stage-id, find_stage-elem,
  elem-remove_stage_self, has_stage-elem, has_completed-elem, elem_of_Disjoint,
}
use saivage.Plan.Calls.{
  PlanCall, get, remove_stage, add_stage, set_current, complete_stage, append_history, start, call,
  methods,
}
use saivage.Plan.Calls.Safety.{IsReady}

module _ (doc : PlanDocument) (ok : document_ok doc ≡ true) (now : String) where
  add_ok :
      (stage : Stage)
      → (has_stage stage.id doc.stages || has_completed stage.id doc.history) ≡ false
      → stage_ok stage ≡ true
      → document_ok (record doc { stages = doc.stages ++ stage ∷ []; updated_at = now }) ≡ true
  add_ok stage fresh fits =
      (document_ok_iff _).1 (add-IsValid ((document_ok_iff doc).0 ok) now stage fresh fits)

  remove_ok :
      (id : String)
      → document_ok (record doc {
        updated_at = now;
        current_stage_id = clear_current id doc.current_stage_id;
        stages = Service.remove_stage id doc.stages;
      })
        ≡ true
  remove_ok id = (document_ok_iff _).1 (remove-IsValid ((document_ok_iff doc).0 ok) now id)

  pub set_current_ok :
      (env : Env) (current : Option String)
      → names_stage current doc.stages ≡ true
      → document_ok (record doc {
        updated_at = now;
        current_stage_id = current;
        stages = stamp_current env current doc.stages;
      })
        ≡ true
  set_current_ok env current h =
      (document_ok_iff _).1 (set_current-IsValid ((document_ok_iff doc).0 ok) now env current h)

  append_ok :
      (c : CompletedStage)
      → has_stage c.id doc.stages ≡ false
      → has_completed c.id doc.history ≡ false
      → document_ok (record doc { history = doc.history ++ c ∷ []; updated_at = now }) ≡ true
  append_ok c active past = (document_ok_iff _).1 (
      append-IsValid ((document_ok_iff doc).0 ok) now c
        (ground (arith, has_stage-elem c.id doc.stages))
        (ground (arith, has_completed-elem c.id doc.history)))

pub complete_ok :
    (doc : PlanDocument) (env : Env) (args : CompleteArgs) (stage : Stage) (begun : String)
    → document_ok doc ≡ true
    → find_stage args.stage_id doc.stages ≡ some stage
    → document_ok (completed_doc env args (complete env args stage begun) doc) ≡ true
complete_ok doc env args stage begun ok found =
    let v = (document_ok_iff doc).0 ok in
    let same = find_stage-id args.stage_id doc.stages found in
    let removed = remove-IsValid v env.now args.stage_id in
    (document_ok_iff _).1 (
      append-IsValid removed env.now (complete env args stage begun)
        (rw same (elem-remove_stage_self args.stage_id doc.stages v.active))
        (rw same (
          elem_of_Disjoint args.stage_id (history_ids doc.history) (stage_ids doc.stages) v.apart
            (find_stage-elem args.stage_id doc.stages found))))

-- `plan_init` is given stages that each fit and of which two have one id.
abbrev pub Rejects : PlanCall → Service → Type 0
Rejects (start stages) s =
    (s.doc ≡ none) × (all stage_ok stages ≡ true) × (Distinct (stage_ids stages) → ⊥)
Rejects c s = ⊥

abbrev fresh : List Stage → String → PlanDocument
fresh stages now = record {
  updated_at = now;
  current_stage_id = none;
  stages = stages;
  history = [];
}

start_ok :
    (stages : List Stage) (now : String)
    → Distinct (stage_ids stages)
    → all stage_ok stages ≡ true
    → document_ok (fresh stages now) ≡ true
start_ok stages now distinct fits =
    (document_ok_iff _).1
      (record { fits = fits; active = distinct; past = tt; apart = tt; current = tt })

start-Distinct :
    (stages : List Stage) (now : String)
    → document_ok (fresh stages now) ≡ true
    → Distinct (stage_ids stages)
start-Distinct stages now ok = ((document_ok_iff _).0 ok).active

start-thrown :
    (env : Env) (stages : List Stage) (s : Service)
    → Rejects (start stages) s
    → (call env (start stages) s).0 ≡ thrown invalid_document
unfolding methods
start-thrown env stages s (empty, fits, repeats) =
    elim (Bool-cases (document_ok (fresh stages env.now))) [
      | inl ok ↦ absurd (repeats (start-Distinct stages env.now ok))
      | inr bad ↦ ground arith
    ]

Rejects-of_thrown :
    (env : Env) (c : PlanCall) {s : Service} (f : Fault)
    → IsReady s
    → env.write_ok ≡ true
    → (call env c s).0 ≡ thrown f
    → Rejects c s
unfolding methods
Rejects-of_thrown env get f r w h = ground arith
Rejects-of_thrown env (remove_stage id) {s} f r w h = elim (Option-cases s.doc) [
  | inl e ↦ ground arith
  | inr (d, e) ↦ ground (arith, remove_ok d (ground (arith, r.valid)) env.now id)
]
Rejects-of_thrown env (add_stage stage) {s} f r w h = elim (Option-cases s.doc) [
  | inl e ↦ ground arith
  | inr (d, e) ↦ ground (arith, add_ok d (ground (arith, r.valid)) env.now stage)
]
Rejects-of_thrown env (set_current current) {s} f r w h = elim (Option-cases s.doc) [
  | inl e ↦ ground arith
  | inr (d, e) ↦ ground (arith, set_current_ok d (ground (arith, r.valid)) env.now env current)
]
Rejects-of_thrown env (append_history c) {s} f r w h = elim (Option-cases s.doc) [
  | inl e ↦ ground arith
  | inr (d, e) ↦ ground (arith, append_ok d (ground (arith, r.valid)) env.now c)
]
Rejects-of_thrown env (complete_stage args) {s} f r w h = elim (Option-cases s.doc) [
  | inl e ↦ ground arith
  | inr (d, e) ↦ elim (Option-cases (find_stage args.stage_id d.stages)) [
    | inl missing ↦ ground arith
    | inr (stage, found) ↦ elim (Option-cases (started stage.started_at)) [
      | inl idle ↦ ground arith
      | inr (begun, at) ↦
          ground (arith, complete_ok d env args stage begun (ground (arith, r.valid)) found)
    ]
  ]
]
Rejects-of_thrown env (start stages) {s} f r w h =
    (ground arith, ground arith, λ distinct. ground (arith, start_ok stages env.now distinct))
Rejects-of_thrown env c f r w h = ground arith

-- From a ready state, and with a file system that takes the write, a call rejects its promise
-- exactly if it is `plan_init` on an empty state with stages that each fit and repeat an id.
pub call-thrown_iff :
    (env : Env) (c : PlanCall) (s : Service)
    → IsReady s
    → env.write_ok ≡ true
    → ((f : Fault) × ((call env c s).0 ≡ thrown f)) ↔ Rejects c s
call-thrown_iff env (start stages) s r w = (
  λ (f, h). Rejects-of_thrown env (start stages) f r w h,
  λ h. (invalid_document, start-thrown env stages s h),
)
call-thrown_iff env c s r w = (λ (f, h). Rejects-of_thrown env c f r w h, λ h. absurd h)
