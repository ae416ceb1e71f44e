-- ===== src/Group.antt =====
-- src/group.rs: the group, its reads, and the two readers.
pub mod Stateless
pub mod Readers
pub mod Marks
pub mod Wait
pub mod EarlyReturn
pub mod Unowned
pub mod Same
pub mod History
pub mod Delivery
pub mod Foreign
pub mod Compared
pub mod Entries
pub mod Verdicts
pub mod Ledger
pub mod Accounts
mod Examples
mod Scenarios
