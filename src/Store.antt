-- ===== src/Store.antt =====
-- The artifacts of stage runs on disk, src/store/stage-run-store.ts.
pub mod EventLog
pub mod Artifacts
pub mod StageRuns
pub mod Samples
