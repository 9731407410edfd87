-- ===== src/Trie/Ops.antt =====
-- tryGet, insert and delete of the three nodes.
pub mod Resolve
pub mod Get
pub mod Insert
pub mod Delete
