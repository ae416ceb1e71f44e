-- ===== src/Fd.antt =====
-- src/fd.rs: the event format that carries an open descriptor.
pub mod Event
pub mod Held
pub mod Walk
pub mod Adopt
pub mod Reuse
pub mod Agree
pub mod RoundTrip
mod Examples
