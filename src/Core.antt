-- ===== src/Core.antt =====
-- The protocol types of crates/core/src/types, with their checks.
pub mod Error
pub mod Capability
pub mod Envelope
pub mod Token
pub mod Manifest
pub mod Crypto
mod Tests
