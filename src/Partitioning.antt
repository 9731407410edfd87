-- ===== src/Partitioning.antt =====
-- core/partitioning: cutting data into chunks.
pub mod Packer
pub mod Packed
mod Tests
