-- ===== src/Trie.antt =====
-- data/trie: the Merkle Patricia trie that holds the accounts.
pub mod Key
pub mod Node
pub mod Ops
pub mod Root
pub mod Map
pub mod Split
pub mod Pair
pub mod SplitLeaf
pub mod SplitExtension
pub mod Insert
pub mod InsertBranch
pub mod Build
pub mod Lookup
pub mod Position
pub mod Shrink
pub mod Remove
pub mod RemoveExtension
pub mod RemoveBranch
pub mod Unbound
pub mod Erase
mod Tests
