-- ===== src/Plan/Calls/History.antt =====
-- The history of the plan under the calls of src/mcp/plan-registry.ts.
use saivage.Base.{
  String, ◌≡◌, refl, ap, sym, ◌∙◌, true, false, ◌&&◌, Option, none, some, List, [], ◌∷◌, ◌++◌,
  arith, ◌⊎◌, inl, inr, Option-cases, Bool-cases, append-nil, append_assoc, any-append,
}
use saivage.Plan.Document.{Stage, CompletedStage, PlanDocument, stage_ids, history_ids, document_ok}
use saivage.Plan.Document.Valid.{document_ok_iff}
use saivage.Plan.Service.{Env, Service, has_stage, has_completed, find_stage}
use saivage.Plan.Methods.{CompleteArgs, complete, completed_doc, started}
use saivage.Plan.Edits.{elem_of_Disjoint_left, has_stage-elem, has_completed-elem}
use saivage.Plan.Calls.{PlanCall, complete_stage, append_history, get, call, run, methods}
use saivage.Plan.Calls.Safety.{IsReady, held_ok, run-IsReady}

abbrev pub held_history : Option PlanDocument → List CompletedStage
held_history none = []
held_history (some d) = d.history

abbrev pub held_stages : Option PlanDocument → List Stage
held_stages none = []
held_stages (some d) = d.stages

append_history-history :
    (env : Env) (c : CompletedStage) (s : Service)
    → (held_history (call env (append_history c) s).1.doc ≡ held_history s.doc)
      ⊎ (held_history (call env (append_history c) s).1.doc ≡ held_history s.doc ++ c ∷ [])
unfolding methods
append_history-history env c s = ground arith

complete_stage-history :
    (env : Env) (args : CompleteArgs) (s : Service)
    → (held_history (call env (complete_stage args) s).1.doc ≡ held_history s.doc)
      ⊎ ((e : CompletedStage) × (held_history (call env (complete_stage args) s).1.doc
            ≡ held_history s.doc ++ e ∷ []))
unfolding methods
complete_stage-history env args s = elim (Option-cases s.doc) [
  | inl e ↦ inl (ground arith)
  | inr (d, e) ↦ elim (Option-cases (find_stage args.stage_id d.stages)) [
    | inl missing ↦ inl (ground arith)
    | inr (stage, found) ↦ elim (Option-cases (started stage.started_at)) [
      | inl idle ↦ inl (ground arith)
      | inr (begun, at) ↦
          elim (Bool-cases (
            document_ok (completed_doc env args (complete env args stage begun) d)
            && env.write_ok)) [
              | inl written ↦ inr (complete env args stage begun, ground arith)
              | inr not_written ↦ inl (ground arith)
            ]
    ]
  ]
]

-- One call adds nothing to the history, or one entry at its end.
call-history :
    (env : Env) (c : PlanCall) (s : Service)
    → (held_history (call env c s).1.doc ≡ held_history s.doc)
      ⊎ ((e : CompletedStage) × (held_history (call env c s).1.doc ≡ held_history s.doc ++ e ∷ []))
unfolding methods
call-history env get s = inl (ground arith)
call-history env (append_history c) s = elim (append_history-history env c s) [
  | inl same ↦ inl same
  | inr more ↦ inr (c, more)
]
call-history env (complete_stage args) s = complete_stage-history env args s
call-history env c s = inl (ground arith)

-- Whatever the calls, what the history held stays its beginning.
pub run-history :
    (calls : List (Env × PlanCall)) (s : Service)
    → (more : List CompletedStage) × (held_history (run calls s).doc ≡ held_history s.doc ++ more)
unfolding run
run-history [] s = ([], sym (append-nil _))
run-history ((env, c) ∷ rest) s =
    let (more, later) = run-history rest (call env c s).1 in
    elim (call-history env c s) [
      | inl same ↦ (more, later ∙ ap (λ h. h ++ more) same)
      | inr (e, new) ↦ (
        e ∷ more,
        later ∙ ap (λ h. h ++ more) new ∙ append_assoc (held_history s.doc) (e ∷ []) more,
      )
    ]

apart_of_held :
    (id : String) (doc : Option PlanDocument)
    → held_ok doc ≡ true
    → has_completed id (held_history doc) ≡ true
    → has_stage id (held_stages doc) ≡ false
apart_of_held id none ok past = refl
apart_of_held id (some d) ok past =
    let v = (document_ok_iff d).0 ok in
    ground (
      arith,
      has_stage-elem id d.stages,
      has_completed-elem id d.history,
      elem_of_Disjoint_left id (history_ids d.history) (stage_ids d.stages) v.apart,
    )

-- From a ready state: once an id is in the history, no calls make it an active stage again.
pub run-retired :
    (calls : List (Env × PlanCall)) (s : Service) (id : String)
    → IsReady s
    → has_completed id (held_history s.doc) ≡ true
    → has_stage id (held_stages (run calls s).doc) ≡ false
run-retired calls s id r past =
    let (more, grown) = run-history calls s in
    apart_of_held id (run calls s).doc (run-IsReady calls s r).valid
      (rw grown (rw (any-append _ (held_history s.doc) more) (ground arith)))
