-- ===== src/Blocks.antt =====
-- process/block/baseProcess.go and process/block/shardblock.go: the checks, the notarized headers and
-- the processing of a block.
pub mod Types
pub mod Validity
pub mod Notarized
pub mod Chained
pub mod Rollback
pub mod Finality
pub mod Correlation
pub mod Matching
pub mod Processed
pub mod Pairs
pub mod Current
pub mod Arrivals
pub mod Missing
pub mod Requested
pub mod CrossShard
pub mod Process
pub mod Keeps
pub mod Failed
pub mod OwnHeaders
pub mod Commit
pub mod Ledger
pub mod Create
pub mod Incoming
pub mod Brought
pub mod Used
pub mod Proposed
pub mod Accepted
pub mod Tests
