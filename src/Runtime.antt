-- ===== src/Runtime.antt =====
-- Parts of src/runtime, with the roster of src/agents that they read.
pub mod Roster
pub mod Dispatcher
pub mod Supervisor
pub mod Notes
mod Samples
