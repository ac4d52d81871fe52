-- ===== src/Providers.antt =====
-- The providers of src/providers: model specs, candidate chains, model health, the router's chat
-- loop and error kinds.
pub mod ModelId
pub mod Candidates
pub mod Health
pub mod Growth
pub mod Errors
pub mod Chat
mod Samples
