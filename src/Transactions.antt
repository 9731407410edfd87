-- ===== src/Transactions.antt =====
-- process/transaction, process/rewardTransaction and process/economics: what a transaction does to
-- the accounts.
pub mod Economics
pub mod Process
pub mod Transfer
pub mod MoveBalance
pub mod Checks
pub mod Outcome
mod Tests
pub mod CrossShard
pub mod Reward
