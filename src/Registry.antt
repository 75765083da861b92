-- ===== src/Registry.antt =====
-- The registry service, crates/registry/src: its tables, and the services over them.
pub mod Error
pub mod Response
pub mod Tables
pub mod Db
pub mod Cache
pub mod World
pub mod Grants
pub mod Tokens
pub mod Audit
pub mod App
pub mod TokenHandler
pub mod AgentHandlers
pub mod GrantHandlers
pub mod Service
pub mod InFlight
pub mod RateLimit
pub mod Signing
pub mod Health
pub mod Server
mod Samples
mod Tests
