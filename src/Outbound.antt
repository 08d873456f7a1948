-- ===== src/Outbound.antt =====
-- src/modules/outbound/send-validator.ts: what is checked before a message is sent, and the form in
-- which a provider's error reaches the interface.
pub mod Errors
pub mod Validator
pub mod Failure
pub mod Normaliser
mod Tests
