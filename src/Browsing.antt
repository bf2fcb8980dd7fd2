-- ===== src/Browsing.antt =====
-- The web browser of apps/api.
pub mod Domains
pub mod Pages
pub mod Monitors
pub mod Searches
pub mod Limits
pub mod Refused
pub mod Idle
pub mod Tests
