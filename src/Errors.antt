-- ===== src/Errors.antt =====
-- The error values of the program (common/errors/domain-error.ts), the two result types in which the
-- other modules return them, and their HTTP statuses (infrastructure/http).
pub mod Codes
pub mod Monads
pub mod Action
pub mod Http
pub mod Envelope
pub use Codes.*
pub use Monads.*
