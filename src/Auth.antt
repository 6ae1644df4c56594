-- ===== src/Auth.antt =====
-- src/auth.rs: who a request comes from, and the sessions of the users.
pub mod Context
pub mod Records
pub mod Service
pub mod Sessions
pub mod Revocation
pub mod Lifecycle
pub mod Reuse
pub mod AccessToken
