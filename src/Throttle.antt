-- ===== src/Throttle.antt =====
-- process/throttle/block.go and core/throttler: how much goes into a block.
pub mod BlockSize
pub mod Limits
mod Tests
