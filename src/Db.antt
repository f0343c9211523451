-- ===== src/Db.antt =====
-- internal/db: the PostgreSQL store, its transactions, and the repository's statements on it.
pub mod World
pub mod Order
pub mod ModelCosts
pub mod Budgets
pub mod Hierarchy
pub mod Reservations
pub mod Usage
pub mod Approvals
pub mod Unique
pub mod Keeps
pub mod Holds
pub mod Alerts
pub mod Ways
pub mod Reads
pub mod Listings
pub mod Cascade
