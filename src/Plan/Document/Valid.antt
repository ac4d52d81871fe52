-- ===== src/Plan/Document/Valid.antt =====
-- `PlanDocumentSchema` of src/types.ts, said without its loops.
use saivage.Base.{
  String, ◌≡◌, refl, ◌↔◌, true, false, Option, none, some, List, [], ◌∷◌, ◌++◌, arith, eq_comm, all,
  elem, Distinct, Disjoint,
}
use saivage.Plan.Document.{
  PlanDocument, stage_ok, stage_ids, history_ids, active_issues, history_issues, current_issues,
  document_issues, document_ok,
}

abbrev pub IsCurrentIn : Option String → List String → Type 0
IsCurrentIn none ids = Unit
IsCurrentIn (some x) ids = elem x ids ≡ true

-- Each stage fits its schema, no id stands twice among the active stages, nor in the history, nor
-- in both, and the current stage is an active one.
pub record IsValid (doc : PlanDocument) : Type 0 where
  pub fits : all stage_ok doc.stages ≡ true
  pub active : Distinct (stage_ids doc.stages)
  pub past : Distinct (history_ids doc.history)
  pub apart : Disjoint (history_ids doc.history) (stage_ids doc.stages)
  pub current : IsCurrentIn doc.current_stage_id (stage_ids doc.stages)

Disjoint-nil : (xs : List String) → Disjoint xs []
Disjoint-nil [] = tt
Disjoint-nil (x ∷ xs) = (refl, Disjoint-nil xs)

pub Disjoint-cons_iff :
    (x : String) (xs ys : List String)
    → Disjoint xs (x ∷ ys) ↔ ((elem x xs ≡ false) × Disjoint xs ys)
Disjoint-cons_iff x [] ys = ground arith
Disjoint-cons_iff x (z ∷ xs) ys = ground (arith, eq_comm x z, Disjoint-cons_iff x xs ys)

active_issues_iff :
    (seen xs : List String) → (active_issues seen xs ≡ []) ↔ (Distinct xs × Disjoint xs seen)
unfolding active_issues
active_issues_iff seen [] = ground arith
active_issues_iff seen (x ∷ xs) =
    ground (arith, active_issues_iff (x ∷ seen) xs, Disjoint-cons_iff x xs seen)

history_issues_iff :
    (active seen xs : List String)
    → (history_issues active seen xs ≡ []) ↔ (Distinct xs × Disjoint xs seen × Disjoint xs active)
unfolding history_issues
history_issues_iff active seen [] = ground arith
history_issues_iff active seen (x ∷ xs) =
    ground (arith, history_issues_iff active (x ∷ seen) xs, Disjoint-cons_iff x xs seen)

current_issues_iff :
    (current : Option String) (ids : List String)
    → (current_issues current ids ≡ []) ↔ IsCurrentIn current ids
unfolding current_issues
current_issues_iff none ids = ground arith
current_issues_iff (some x) ids = ground arith

append-eq-nil_iff {ℓ} : {A : Type ℓ} (xs ys : List A) → (xs ++ ys ≡ []) ↔ ((xs ≡ []) × (ys ≡ []))
append-eq-nil_iff [] ys = ground arith
append-eq-nil_iff (x ∷ xs) ys = ground arith

-- The plan schema accepts a document exactly when each stage fits its schema, no id stands twice
-- among the active stages, nor in the history, nor in both, and the current stage is null or
-- active.
pub document_ok_iff : (doc : PlanDocument) → (document_ok doc ≡ true) ↔ IsValid doc
unfolding document_ok document_issues
document_ok_iff doc =
    let active = active_issues [] (stage_ids doc.stages) in
    let past = history_issues (stage_ids doc.stages) [] (history_ids doc.history) in
    let current = current_issues doc.current_stage_id (stage_ids doc.stages) in
    ground (
      arith,
      active_issues_iff [] (stage_ids doc.stages),
      history_issues_iff (stage_ids doc.stages) [] (history_ids doc.history),
      current_issues_iff doc.current_stage_id (stage_ids doc.stages),
      append-eq-nil_iff active (past ++ current),
      append-eq-nil_iff past current,
      Disjoint-nil (stage_ids doc.stages),
      Disjoint-nil (history_ids doc.history),
    )
