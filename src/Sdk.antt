-- ===== src/Sdk.antt =====
-- The client library, crates/sdk/src: its errors, its configuration, its retries, its token cache and
-- guards of refreshes, the limits that it enforces on itself, its proofs and its calls.
pub mod Error
pub mod Config
pub mod Retry
pub mod TokenCache
pub mod RefreshGuard
pub mod RateLimiter
pub mod Dpop
pub mod Client
mod Tests
