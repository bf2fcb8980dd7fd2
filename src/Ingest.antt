-- ===== src/Ingest.antt =====
-- The ingestion of knowledge in apps/ai.
mod Slices
pub mod Chunks
pub mod Jobs
pub mod Tasks
pub mod Tracked
pub mod World
pub mod Knowledge
pub mod Background
pub mod Unfinished
pub mod Settled
pub mod Uploads
pub mod Accepted
pub mod Serving
pub mod Samples
pub mod Tests
