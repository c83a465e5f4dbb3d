-- ===== src/Raft/Examples.antt =====
-- Small clusters and logs of the consensus module, and its theorems at them.
mod Clients
mod Clusters
mod Logs
mod Nodes
mod Commits
