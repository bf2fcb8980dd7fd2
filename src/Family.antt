-- ===== src/Family.antt =====
-- Family access: apps/api/app/services/family_access.py. `Data` has the rows and the answers,
-- `Scope` what a session may see, `Rules` the access rules, `Invites` the admission by invite link,
-- `Login` the admission by family code, and `Legacy` the legacy mode; their children prove.
pub mod Data
pub mod Scope
pub mod Visible
pub mod Window
pub mod InForce
pub mod Invites
pub mod Admission
pub mod Uses
pub mod Login
pub mod Guessing
pub mod Rules
pub mod Ownership
pub mod Legacy
pub mod Activation
mod Tests
mod LoginTests
