-- ===== src/Numbering.antt =====
-- Voucher numbering (core/numbering): the format of a number, the counters, and their administration.
pub mod Format
pub mod Series
pub mod Unique
pub mod Gapless
pub mod Admin
