-- ===== src/Requisition.antt =====
-- Material requisitions (modules/requisition/domain).
pub mod Aggregate
pub mod Balance
pub mod Lifecycle
pub mod Reach
