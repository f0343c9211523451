-- ===== src/Api.antt =====
-- internal/api: the HTTP handlers. A handler gives the status of its response; a path or body
-- parameter that does not parse is `none`.
pub mod Approvals
pub mod Budgets
pub mod RateLimits
pub mod ModelCosts
pub mod Listings
pub mod Alerts
