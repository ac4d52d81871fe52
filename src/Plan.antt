-- ===== src/Plan.antt =====
-- The plan: src/types.ts (schemas), src/mcp/plan-server.ts (service), src/store/plan-read-models.ts.
pub mod Document
pub mod Reply
pub mod Service
pub mod Methods
mod Edits
pub mod Calls
mod Samples
