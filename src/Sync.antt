-- ===== src/Sync.antt =====
-- The sync engine, apps/api/app/services/sync_engine.py: replication between two model instances.
-- Tables holds the rows and the answers of the instances, Transfer the three passes of a sync,
-- Run the syncs themselves, Resolve the resolution of conflicts, Auto the background job.
pub mod Tables
pub mod Transfer
pub mod Run
pub mod Resolve
pub mod Choices
pub mod Auto
pub mod Background
pub mod Counts
pub mod Outcomes
pub mod Bounds
pub mod Watermark
pub mod Tests
