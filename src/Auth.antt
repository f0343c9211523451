-- ===== src/Auth.antt =====
-- internal/auth: who calls, and what the caller may do.
pub mod Identity
pub mod Rbac
