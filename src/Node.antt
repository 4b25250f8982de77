-- ===== src/Node.antt =====
-- crates/ferriskv-node: the storage node.
pub mod Config
pub mod Wal
pub mod Ttl
pub mod Quota
pub mod Watch
pub mod Throttle
pub mod Status
pub mod AuthLayer
pub mod Audit
pub mod Service
pub mod Sweeper
pub mod Grpc
pub mod Main
pub mod Admin
