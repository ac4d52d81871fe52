-- ===== src/Routing.antt =====
-- Model routing: src/routing/resolver.ts.
pub mod Rule
pub mod Graph
pub mod Resolver
mod Samples
