-- ===== src/Budget.antt =====
-- internal/budget/service.go: the budget service.
pub mod ModelName
pub mod Pricing
pub mod Sort
pub mod Check
pub mod Reserve
pub mod Charge
pub mod Maintenance
