-- ===== src/Auth.antt =====
-- Identity: apps/api/app/services/auth.py with the tokens of apps/api/app/core/security.py and the
-- guards of apps/api/app/core/auth_guard.py. Tokens holds the JWTs and the guards, Accounts the
-- owners, Sessions refresh and logout, Verify the verification of an owner.
pub mod Tokens
pub mod Sessions
pub mod Accounts
pub mod Connection
pub mod Google
pub mod Verify
pub mod Rotation
pub mod Kinds
pub mod Proofs
pub mod Emails
pub mod Codec
pub mod Tests
