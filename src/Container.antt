-- ===== src/Container.antt =====
-- The container runtime, modules/container-runtime/minicon.
pub mod Netlink
pub mod Idmap
mod Examples
