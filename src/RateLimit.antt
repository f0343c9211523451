-- ===== src/RateLimit.antt =====
-- Rate limits: internal/db/ratelimit_repository.go and the lookup of
-- internal/extproc/ratelimit_server.go.
pub mod Pattern
pub mod Lookup
pub mod Store
pub mod Records
pub mod Lifecycle
pub mod Sanctioned
