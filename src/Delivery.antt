-- ===== src/Delivery.antt =====
-- The delivery workflow: its state, its nodes and the graph that joins them.
pub mod State
pub mod Merge
pub mod Stages
pub mod Dispatch
pub mod Context
pub mod Approvals
pub mod Graph
