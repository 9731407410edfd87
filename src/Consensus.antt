-- ===== src/Consensus.antt =====
-- consensus/spos: the state of a round.
pub mod Round
pub mod Size
mod Tests
