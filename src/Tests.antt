-- ===== src/Tests.antt =====
-- Concrete inputs for the theorems: a decimal library on integers, and small ledgers, periods,
-- counters and stocks.
pub mod Decimals
pub mod Periods
pub mod Numbers
pub mod Stock
pub mod Ledger
pub mod Requests
pub mod Accounts
pub mod Dates
pub mod Journals
pub mod Postings
pub mod Purchases
pub mod Orders
