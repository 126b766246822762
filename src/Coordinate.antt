-- ===== src/Coordinate.antt =====
-- shard/shard/coordinate.py: the coordinator process that serves jobs over a formed ring.
pub mod Stream
pub mod Job
pub mod Serve
pub mod Watchdog
