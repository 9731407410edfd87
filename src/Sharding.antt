-- ===== src/Sharding.antt =====
-- sharding: the shards and their addresses, and the choice of the consensus group.
pub mod Coordinator
pub mod Bounds
pub mod Nodes
pub mod Selected
pub mod Group
pub mod Selection
pub mod Signers
mod Tests
