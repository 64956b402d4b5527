-- ===== src/Liquidation.antt =====
-- radar/src/crt_radar/liquidation_aggregator.py: the store of liquidation events and connection
-- sessions, and the snapshots that are built from it.
pub mod Verify
pub mod Verified
pub mod Intervals
pub mod Overlap
pub mod Sessions
pub mod Order
pub mod Snapshot
pub mod Disk
pub mod Built
pub mod Events
