-- ===== src/Topology.antt =====
-- shard/shard/topology.py: the ring that a pool of nodes forms, and the layers of each stage.
pub mod Assign
pub mod Head
pub mod Pins
pub mod Roles
pub mod Tour
pub mod Search
pub mod Select
