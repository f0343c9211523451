-- ===== src/ExtProc.antt =====
-- internal/extproc: the two external processors that the gateway calls.
pub mod Json
pub mod Tokens
pub mod Envoy
pub mod Context
pub mod BudgetServer
pub mod RateLimitServer
