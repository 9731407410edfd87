-- ===== src/Sync.antt =====
-- process/sync: how a node finds out that it is on a fork.
pub mod ForkDetector
