-- ===== src/Coord.antt =====
-- crates/ferriskv-coord: the coordinator.
pub mod Config
pub mod Placement
pub mod State
