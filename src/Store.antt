-- ===== src/Store.antt =====
-- sidecar/internal/store
pub mod Table
pub mod Rows
pub mod Keys
pub mod Clients
pub mod Grants
pub mod Janitor
pub mod Reads
pub mod Stable
pub mod Additions
pub mod Guarded
pub mod WellFormed
pub mod Cleanup
pub mod Refinement
