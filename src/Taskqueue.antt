-- ===== src/Taskqueue.antt =====
-- The task queue, modules/taskqueue/taskqueue.
pub mod Queue
pub mod Protocol
pub mod Broker
pub mod Worker
mod Examples
