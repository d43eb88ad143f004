-- ===== src/Period.antt =====
-- Accounting periods (core/period): the aggregate, the table, and the methods that open and close.
pub mod Aggregate
pub mod Table
pub mod Methods
pub mod Guard
pub mod YearLock
pub mod Span
pub mod Cover
pub mod Named
pub mod Generate
