-- ===== src/Search.antt =====
-- Search and grounded answers in apps/ai.
pub mod Ranking
pub mod Vectors
pub mod Retrieval
pub mod Grounding
pub mod Shown
pub mod Permitted
pub mod Tests
