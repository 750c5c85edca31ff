-- ===== src/Api.antt =====
-- backend/app: the operations of the HTTP API that change runs, approvals and tasks, behind the
-- roles of backend/app/auth/deps.py.
pub mod Auth
pub mod Operations
pub mod Runs
pub mod Approvals
pub mod Tasks
pub mod Roles
pub mod Transitions
pub mod Waking
pub mod Agents
pub mod Mcp
pub mod Sessions
pub mod Projects
