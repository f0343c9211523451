-- ===== src/Models.antt =====
-- The records and enums of internal/models. Identifiers that are only compared (UUIDs) are
-- natural numbers; text is `String`; a nullable column is an `Option`; a time is in seconds since
-- the Unix epoch; an amount of money is a whole number of quanta of 10^-16 USD.
pub mod Budget
pub mod Calendar
pub mod Period
pub mod Pagination
pub mod Alert
pub mod RateLimit
