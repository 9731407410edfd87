-- ===== src/Accounts.antt =====
-- data/state: the accounts and the journal of their changes.
pub mod Types
pub mod Store
pub mod Changes
pub mod Undo
pub mod Snapshot
pub mod Tests
