-- ===== src/Orchestrator.antt =====
-- The control plane, modules/orchestrator/orchestrator: the objects, the two stores that hold them,
-- and the work queue of the controllers.
pub mod Objects
pub mod Store
pub mod Queue
pub mod Scheduler
pub mod Workloads
pub mod Agent
mod Examples
