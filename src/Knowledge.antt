-- ===== src/Knowledge.antt =====
-- Project knowledge of src/knowledge: who may call which operation in which scope, the records and
-- their tables, and the operations on them.
pub mod Permissions
pub mod Records
pub mod Sidecar
pub mod Lifecycle
pub mod Calls
pub mod Reads
mod Samples
mod LifecycleSamples
