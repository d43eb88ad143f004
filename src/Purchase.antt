-- ===== src/Purchase.antt =====
-- Purchases (modules/purchase/domain): the rates, the three-way match, the order, the bill and its
-- entry.
pub mod Tax
pub mod Match
pub mod Bill
pub mod Lifecycle
pub mod BillPosting
pub mod Order
