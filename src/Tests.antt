-- ===== src/Tests.antt =====
-- Runs of the definitions on concrete values, for which the theorems' conditions hold.
pub mod Graph
pub mod Api
pub mod Orchestrator
pub mod States
pub mod Workers
pub mod Tools
pub mod Agents
pub mod Mcp
pub mod Sandbox
pub mod Dispatch
mod Guards
pub mod Sessions
pub mod Context
