-- ===== src/Raft.antt =====
-- The consensus module, modules/raft-kv/raft_kv: the log, the durable state, the node, and the
-- key-value store that it replicates.
pub mod Log
pub mod State
pub mod Node
pub mod Quorum
pub mod Cluster
pub mod Service
pub mod Client
pub mod Store
mod Examples
