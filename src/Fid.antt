-- ===== src/Fid.antt =====
-- src/fid.rs: the event format that identifies objects by file handle.
pub mod Event
pub mod Payload
pub mod Wire
pub mod Records
pub mod Walk
pub mod Adopt
pub mod Open
pub mod Deleted
pub mod Compare
pub mod Build
pub mod Shared
mod Examples
