-- ===== src/Plan/Document.antt =====
-- The plan document: the Zod schemas `StageSchema`, `CompletedStageSchema` and
-- `PlanDocumentSchema` of src/types.ts on values of the declared types. What a schema says of a
-- field's type holds by construction; its `min`, `max` and `superRefine` conditions are tests.
pub mod Valid
use saivage.Base.{
  ℕ, String, Bool, true, false, ◌&&◌, Option, none, some, List, [], ◌∷◌, ◌++◌, map, leb, all, elem,
  length, if◌then◌else◌, utf16_length,
}

-- `StageSchema`
pub record Stage : Type 0 where
  pub id : String
  pub objective : String
  pub starting_points : List String
  pub expected_outcomes : List String
  pub acceptance_criteria : List String
  pub references : List String
  pub tags : List String
  pub started_at : Option String

pub data StageResult : Type 0 where
  completed failed escalated aborted : StageResult

pub record Escalation : Type 0 where
  pub stage_id : String
  pub task_id : Option String
  pub reason : String
  pub attempted_remediations : List String
  pub suggested_action : Option String
  pub created_at : String

-- `CompletedStageSchema`; it has no conditions beside the types of the fields
pub record CompletedStage : Type 0 where
  pub id : String
  pub objective : String
  pub expected_outcomes : List String
  pub actual_outcomes : List String
  pub started_at : String
  pub completed_at : String
  pub result : StageResult
  pub summary : String
  pub escalation : Option Escalation
  pub abort_reason : Option String

pub record PlanDocument : Type 0 where
  pub updated_at : String
  pub current_stage_id : Option String
  pub stages : List Stage
  pub history : List CompletedStage

-- `StageSchema.parse` succeeds.
unfoldable pub stage_ok : Stage → Bool
unfolding utf16_length
stage_ok s =
    leb 1 (utf16_length s.id)
    && leb 1 (utf16_length s.objective)
    && leb (utf16_length s.objective) 1000
    && leb 1 (length s.expected_outcomes)
    && leb 1 (length s.acceptance_criteria)

abbrev pub stage_ids : List Stage → List String
stage_ids = map (λ s. s.id)

abbrev pub history_ids : List CompletedStage → List String
history_ids = map (λ s. s.id)

-- The issues that `superRefine` adds.
pub data DocumentIssue : Type 0 where
  duplicate_active duplicate_history in_both bad_current : String → DocumentIssue

-- The first loop; `seen` is `activeIds`.
unfoldable pub active_issues : List String → List String → List DocumentIssue
active_issues seen [] = []
active_issues seen (x ∷ xs) =
    (if elem x seen then duplicate_active x ∷ [] else []) ++ active_issues (x ∷ seen) xs

-- The second loop; `seen` is `historyIds`.
unfoldable pub history_issues : List String → List String → List String → List DocumentIssue
history_issues active seen [] = []
history_issues active seen (x ∷ xs) =
    (if elem x seen then duplicate_history x ∷ [] else [])
    ++ ((if elem x active then in_both x ∷ [] else []) ++ history_issues active (x ∷ seen) xs)

unfoldable pub current_issues : Option String → List String → List DocumentIssue
current_issues none active = []
current_issues (some x) active = if elem x active then [] else bad_current x ∷ []

unfoldable pub document_issues : PlanDocument → List DocumentIssue
unfolding active_issues history_issues current_issues
document_issues doc =
    active_issues [] (stage_ids doc.stages)
    ++ (history_issues (stage_ids doc.stages) [] (history_ids doc.history)
        ++ current_issues doc.current_stage_id (stage_ids doc.stages))

abbrev is_empty {ℓ} : {A : Type ℓ} → List A → Bool
is_empty [] = true
is_empty (x ∷ xs) = false

-- `PlanDocumentSchema.parse` succeeds: the refinement runs on documents that pass the base schema.
unfoldable pub document_ok : PlanDocument → Bool
unfolding document_issues stage_ok
document_ok doc = all stage_ok doc.stages && is_empty (document_issues doc)
