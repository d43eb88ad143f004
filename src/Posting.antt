-- ===== src/Posting.antt =====
-- The posting layer (core/posting): commands, the tag matrix, journal entries, and the service that
-- is the only writer of the ledger.
pub mod Command
pub mod Tags
pub mod Entry
pub mod Build
pub mod Service
