-- ===== src/Store/StageRuns/Expected.antt =====
-- The artifact that an agent must have written: `readExpectedStageTaskReport` and `readExpectedStageSummary`.
use saivage.Base.{String, Option, none, some, List, not, if◌then◌else◌, ◌==◌, map_get}
use saivage.Store.Artifacts.{TaskReport, task_report_ok, StageSummary, stage_summary_ok}
use saivage.Store.StageRuns.{Disk, Stored, missing, damaged, present}

-- why an artifact is invalid: the file is no JSON, the schema refuses it, or it is another's
pub data Flaw : Type 0 where
  unreadable refused_by_schema other_stage other_task other_agent : Flaw

-- `ArtifactReadResult`
pub data ArtifactRead (A : Type 0) : Type 0 where
  valid : A → ArtifactRead A
  absent : ArtifactRead A
  invalid : Flaw → ArtifactRead A

-- `readArtifactJson`, and what comes after it on a value that it reads
abbrev read_artifact : {A : Type 0} → (A → ArtifactRead A) → Stored A → ArtifactRead A
read_artifact check missing = absent
read_artifact check damaged = invalid unreadable
read_artifact check (present a) = check a

abbrev pub report_file : {A : Type 0} → Option (Stored A) → Stored A
report_file none = missing
report_file (some file) = file

abbrev check_report : String → String → String → TaskReport → ArtifactRead TaskReport
check_report stage_id task_id agent r =
    if not (task_report_ok r)
    then invalid refused_by_schema
    else if not (r.stage_id == stage_id)
    then invalid other_stage
    else if not (r.task_id == task_id)
    then invalid other_task
    else if not (r.agent == agent)
    then invalid other_agent
    else valid r

abbrev check_summary : String → StageSummary → ArtifactRead StageSummary
check_summary stage_id s =
    if not (stage_summary_ok s)
    then invalid refused_by_schema
    else if not (s.stage_id == stage_id)
    then invalid other_stage
    else valid s

abbrev pub read_report :
    String
    → String
    → String
    → (String → List (String × Stored TaskReport))
    → ArtifactRead TaskReport
read_report stage_id task_id agent reports =
    read_artifact (check_report stage_id task_id agent)
      (report_file (map_get (reports stage_id) task_id))

abbrev pub read_summary : String → (String → Stored StageSummary) → ArtifactRead StageSummary
read_summary stage_id summaries = read_artifact (check_summary stage_id) (summaries stage_id)

module _ {Text : Type 0} where
  unfoldable pub read_expected_stage_task_report :
      String → String → String → Disk Text → ArtifactRead TaskReport
  read_expected_stage_task_report stage_id task_id agent disk =
      read_report stage_id task_id agent disk.reports

  unfoldable pub read_expected_stage_summary : String → Disk Text → ArtifactRead StageSummary
  read_expected_stage_summary stage_id disk = read_summary stage_id disk.summaries
