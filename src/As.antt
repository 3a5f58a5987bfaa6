-- ===== src/As.antt =====
-- sidecar/internal/as: the authorization server's endpoints.
pub mod Clients
pub mod Token
pub mod Revoke
pub mod Authorize
pub mod Callback
pub mod Register
pub mod Introspect
pub mod Userinfo
pub mod WellKnown
pub mod Neutral
pub mod Stable
pub mod Login
pub mod Registration
pub mod Issue
pub mod Refusals
pub mod Profile
pub mod AccessToken
pub mod Introspection
pub mod Authentication
