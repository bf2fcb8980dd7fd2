-- ===== src/Billing.antt =====
-- Hosting, payments and survival mode: apps/api/app/services/self_manager.py, with the rows of
-- apps/api/app/models/owner.py that it reads and writes. `Account` holds the definitions of the
-- data, `Hosting`, `Renewal`, `Webhook` and
-- `Preservation` the operations; the other children prove.
pub mod Account
pub mod Hosting
pub mod Renewal
pub mod Webhook
pub mod Preservation
pub mod Invariant
pub mod Soundness
pub mod History
pub mod Retries
pub mod Survival
pub mod Attempts
pub mod Events
mod Tests
