-- ===== src/Sys.antt =====
-- src/sys.rs: the system calls on a group. What the kernel answers is a parameter.
pub mod Read
pub mod Retry
pub mod Calls
mod Examples
