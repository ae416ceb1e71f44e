-- ===== src/Handle.antt =====
-- src/handle.rs: what is known about file handles.
pub mod Key
pub mod Cache
pub mod View
pub mod History
pub mod Store
pub mod Levels
pub mod Entries
pub mod Clones
pub mod Counts
pub mod Knowledge
pub mod Open
pub mod Mounts
pub mod Statfs
pub mod Attempts
pub mod Encode
pub mod Probe
mod Examples
