-- ===== src/Response.antt =====
-- src/response.rs: the answers to permission events.
pub mod Buffer
pub mod Append
pub mod Decision
pub mod Encode
pub mod Wire
pub mod Write
pub mod Decode
pub mod AuditRule
pub mod ErrnoWord
mod Examples
