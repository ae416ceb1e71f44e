-- ===== src/Resolve.antt =====
-- src/resolve.rs: paths for the events of a buffer.
pub mod Resolver
pub mod Batch
pub mod Directory
pub mod Outcome
pub mod Again
pub mod Lookups
pub mod Memo
mod Examples
