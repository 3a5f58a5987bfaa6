-- ===== src/Plugin.antt =====
-- plugin: the Traefik middleware.
pub mod Routing
pub mod Claims
pub mod Jwt
pub mod JwksCache
pub mod Middleware
pub mod Setup
pub mod Responses
pub mod Discovery
pub mod Unrouted
pub mod Forwarding
pub mod Acceptance
pub mod Verification
