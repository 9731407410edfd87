-- ===== src/Lib.antt =====
-- A verification library for elrond-go, a node of a sharded proof-of-stake block chain: the parts
-- of it that decide what a node stores and which chain it follows.
--
-- The parts, and how they interact:
--   A node takes the headers of blocks from the network and from its own work. The fork detector of
-- the syncing component (process/sync) keeps them by nonce, keeps the checkpoints that are final,
-- and says when the node is on another chain than the one that wins. Blocks carry transactions. The
-- transaction processor (process/transaction) checks one against its sender's account, takes the
-- fee (process/economics), and moves the balance. Accounts (data/state) are loaded as objects in
-- memory, changed through a journal, and saved to the main trie; a block that fails is taken back
-- by RevertToSnapshot. The shard of an address comes from the coordinator (sharding). The
-- validators of a round (consensus/spos) sign the block. The trie (data/trie) is a Merkle Patricia
-- trie in memory over a database.
--
-- Which file models which part:
--   Prelude (Tests, Lists, Int, Bytes, Maps): numbers, integers, byte strings and maps that the
-- components share. uint64 is a native number; where the code computes an int64 or wraps around,
-- `to_int64`, `sub_int64` and `% two64` say so. math/big is the type of integers of Prelude/Int.
--   Sync/ForkDetector: process/sync/baseForkDetector.go, shardForkDetector.go and
-- metaForkDetector.go. Types has the fields of baseForkDetector as one record; Store the changes of
-- checkpoints and of the map of headers; Validity the checks of checkBlockBasicValidity and the
-- forced forks; AddHeader the whole of AddHeader, for a shard and for the metachain; Check has
-- CheckFork. The map of headers is an association list, so the order in which Go ranges over it is
-- one of many. Steps is a call of any
-- exported method. Acceptance, Buckets, Invariant, Consistent, Reachable, Finality, Contents,
-- Highest, Choice and Report have the proofs.
--   Trie: Key has keyBytesToHex, hexToKeyBytes and prefixLen of data/trie/node.go, Node the three
-- kinds of nodes of node.go with their children, loaded, collapsed or absent; Ops has tryGet,
-- insert and delete (data/trie/leafNode.go, extensionNode.go, branchNode.go), Root has Get, Update
-- and Delete (patriciaMerkleTrie.go). A nil root is `absent`. Go changes nodes in place: an
-- operation returns the node as it has become and its result. Map says what a trie stands for, as a
-- function from keys to values that knows no depth, no marks and no database; Split, Pair,
-- SplitLeaf, SplitExtension, Insert, InsertBranch, Build, Lookup, Position, Shrink, Remove,
-- RemoveExtension, RemoveBranch, Unbound and Erase prove the operations against it.
--   Accounts: Types has Account of data/state/account.go, the journal entries of journalEntries.go
-- and baseJournalEntries.go, and the state of AccountsDB (accountsDB.go); Store has fetching,
-- saving and RevertToSnapshot. An account in memory is an object with a number, as Go shares it by
-- its pointer, so two objects can stand for one address. Changes, Undo and Snapshot have the
-- proofs.
--   Transactions: Economics has the fees of process/economics/economicsData.go; Process has
-- process/transaction/baseProcess.go, shardProcess.go and metaProcess.go and
-- process/rewardTransaction/process.go; Transfer, MoveBalance, CrossShard, Reward, Checks and
-- Outcome have the proofs.
--   Sharding: sharding/multiShardCoordinator.go and core/address.go, which say to which shard
-- an address belongs, with Bounds; Nodes and Selection have sharding/indexHashedNodesCoordinator.go,
-- which chooses the consensus group, with Selected, Group and Signers.
--   Throttle: process/throttle/block.go, with Limits.
--   Consensus: Round has consensus/spos/roundConsensus.go, roundState.go, roundStatus.go and
-- roundThreshold.go and the questions of consensusState.go, as one record; Size has the proofs.
--   Partitioning: Packer has core/partitioning/simpleDataPacker.go and dataSplit.go, which cut what
-- is sent to other nodes into chunks; Packed has the proofs.
--   Blocks: process/block/baseProcess.go and shardblock.go. Validity has the checks of a header,
-- Notarized the notarized headers of each shard, with Chained and Rollback; Finality the
-- finality of meta headers; Correlation and Matching the mini-block
-- headers against a body; Processed the
-- mini-blocks that were processed, as a set in Pairs; Current the headers for the current block,
-- with their requests, and Arrivals those that arrive, counted in Missing and Requested;
-- CrossShard the mini-blocks that come from other shards; Process has ProcessBlock over the
-- accounts of Accounts, with Keeps and Failed; OwnHeaders and Commit have CommitBlock, and
-- Ledger the chain that it builds; Create the choice of meta blocks for a new block, and
-- Incoming the mini-blocks of one of them, in process/coordinator/process.go, with Brought;
-- Used, Proposed and Accepted have the headers of the new block against the checks of other
-- nodes.
-- The modules Tests hold small states and runs.
--
-- Bounds and fuel: a trie operation is bounded by fuel, the length of the key in nibbles and one
-- more. That is enough, since a branch takes one nibble and no extension of a trie in memory has an
-- empty path. The search for the base-2 logarithm of a number of shards has 32 steps, enough for a
-- uint32. The search for the index of a validator has as many steps as there are validators, which
-- is enough where fewer are selected than there are keys. Every other loop runs over a list.
--
-- Parameters: of the fork detector the rounder, the black list and the genesis nonce; of the trie
-- getNodeFromDBAndDecode, the database with the marshalizer; of the accounts when the trie or the
-- marshalizer fails; of the transactions the shard of an address, the address converter, the type
-- of a transaction and the processor of smart contracts; of the packer the marshalizer; of the
-- blocks the marshalizer with the hasher, the coordinator of the transactions, the statistics of the
-- validators, the storage and the time.
--
-- Not modelled: locks (a method under its mutex is one step), logging, nil receivers; hashing,
-- committing, collapsing, proofs and iteration of the trie; code and data tries of accounts; the
-- subrounds of the consensus, the choice of a shard's own transactions for a block, the meta chain's
-- processor, the network and the interfaces of the node.
pub mod Prelude
pub mod Sync
pub mod Trie
pub mod Accounts
pub mod Transactions
pub mod Sharding
pub mod Consensus
pub mod Partitioning
pub mod Blocks
pub mod Throttle
