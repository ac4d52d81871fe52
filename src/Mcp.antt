-- ===== src/Mcp.antt =====
-- The built-in tool servers of src/mcp that stand before project knowledge and the stages' artifacts.
pub mod MemoryTools
pub mod StageTools
pub mod HttpFetch
pub mod Tools
mod Samples
mod ToolSamples
