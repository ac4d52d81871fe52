-- ===== src/Agents.antt =====
-- Agents, src/agents: what an agent does about a failed model call.
pub mod RetryPolicy
mod Samples
