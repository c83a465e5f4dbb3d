-- ===== src/Orchestrator/Examples.antt =====
-- Small stores, queues and placements of the control plane, and its theorems at them.
mod Stores
mod Queues
mod Placements
