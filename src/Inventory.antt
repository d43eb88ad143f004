-- ===== src/Inventory.antt =====
-- Stock valuation and stock movements (modules/inventory).
pub mod Valuation
pub mod Conserve
pub mod Movement
pub mod Store
pub mod Draft
pub mod Journal
pub mod Sides
pub mod Vouchers
