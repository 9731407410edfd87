-- ===== src/Sync/ForkDetector.antt =====
-- process/sync/baseForkDetector.go, shardForkDetector.go and metaForkDetector.go. The locks are
-- left out: each exported method is one atomic step here.
pub mod Types
pub mod Store
pub mod Validity
pub mod AddHeader
pub mod Check
pub mod Acceptance
pub mod Buckets
pub mod Invariant
pub mod Steps
pub mod Consistent
pub mod Reachable
pub mod Finality
pub mod Contents
pub mod Highest
pub mod Choice
pub mod Report
mod Tests
