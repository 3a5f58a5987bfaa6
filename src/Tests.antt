-- ===== src/Tests.antt =====
-- Concrete runs of the sidecar and of the middleware.
pub mod World
mod Tokens
mod Middleware
mod Keys
mod Limits
mod Grants
mod Introspection
mod Settings
mod Running
pub mod Setup
