-- ===== src/Workers.antt =====
-- workers/base: what a worker does with the commands of its queue.
pub mod Persistence
pub mod Consumer
pub mod Execution
pub mod Retries
pub mod Outcome
