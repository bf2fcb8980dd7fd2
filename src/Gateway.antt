-- ===== src/Gateway.antt =====
-- The gateway to external language models in apps/api.
pub mod Costs
pub mod Sanitizer
pub mod Configs
pub mod Queries
pub mod Accounted
pub mod Providers
pub mod Tests
