-- ===== src/Blocks/Incoming.antt =====
-- process/coordinator/process.go: CreateMbsAndProcessCrossShardTransactionsDstMe, which executes the
-- mini-blocks that a meta block brings to the shard, and processCompleteMiniBlock. The pool of the
-- mini-blocks and the preprocessors are a record of operations on a state of their own.
use elrond_go.Prelude.{
  ℕ, ◌+◌, ◌%◌, ◌^◌, Bool, true, false, not, Option, none, some, List, [], ◌∷◌, ◌++◌, ltb, leb, ◌==◌,
  if◌then◌else◌, length,
}
use elrond_go.Prelude.Bytes.{Bytes}
use elrond_go.Prelude.Keyed.{is_in}
use elrond_go.Accounts.Types.{AccountsDb, Storage}
use elrond_go.Accounts.Store.{revert_to_snapshot, journal_len}
use elrond_go.Blocks.Types.{Error, MiniBlock, Header, get_mini_block_headers_with_dst}
use elrond_go.Blocks.Create.{Created}

pub record Preprocessors (R : Type 0) : Type 0 where
  -- nil or of another type counts as missing
  pub mini_block_in_pool : Bytes → Option MiniBlock
  pub has_preprocessor : ℕ → Bool
  pub request_transactions_for_mini_block : MiniBlock → R → ℕ × R
  pub process_mini_block : MiniBlock → ℕ → AccountsDb → R → (AccountsDb × R) × Option Error

-- the state of the loop
pub record Incoming (R : Type 0) : Type 0 where
  pub mini_blocks : List MiniBlock
  pub tx_added : ℕ
  pub mini_blocks_processed : ℕ
  pub other : AccountsDb × R

-- the keys of the map that GetMiniBlockHeadersWithDst makes, in one of the orders in which Go can
-- range over them
unfoldable pub keys : List Bytes → List Bytes
keys [] = []
keys (k ∷ ks) = let rest = keys ks in if is_in k ks then rest else k ∷ rest

module _ {R : Type 0} where
  unfoldable pub count_processed : Incoming R → Incoming R
  count_processed i = record i { mini_blocks_processed = i.mini_blocks_processed + 1 }

  unfoldable pub add_mini_block : MiniBlock → Incoming R → Incoming R
  add_mini_block mb i = record i {
    mini_blocks = i.mini_blocks ++ mb ∷ [];
    tx_added = (i.tx_added + length mb.tx_hashes) % 2 ^ 32;
    mini_blocks_processed = i.mini_blocks_processed + 1;
  }

  unfoldable pub with_other : AccountsDb × R → Incoming R → Incoming R
  with_other w i = record i { other = w }

  -- a return before the end, and the end of the loop
  unfoldable pub unfinished : Incoming R → Created × (AccountsDb × R)
  unfinished i =
      (record { mini_blocks = i.mini_blocks; txs = i.tx_added; is_finished = false }, i.other)

  unfoldable pub at_end : ℕ → Incoming R → Created × (AccountsDb × R)
  at_end total i = (
    record {
      mini_blocks = i.mini_blocks;
      txs = i.tx_added;
      is_finished = i.mini_blocks_processed == total;
    },
    i.other,
  )

  module _ (s : Storage) (p : Preprocessors R) (round : ℕ) where
    -- an error of the revert is logged only
    unfoldable pub revert_if : ℕ → (AccountsDb × R) × Option Error → (AccountsDb × R) × Option Error
    revert_if snapshot (w, none) = (w, none)
    revert_if snapshot ((db, r), some e) = (((revert_to_snapshot s snapshot db).0, r), some e)

    unfoldable pub process_complete_mini_block :
        MiniBlock → AccountsDb × R → (AccountsDb × R) × Option Error
    process_complete_mini_block mb (db, r) =
        revert_if (journal_len db) (p.process_mini_block mb round db r)

    -- one mini-block of the loop, and whether the call returns behind it
    module _ (max_txs max_mbs : ℕ) where
      unfoldable pub add_complete :
          MiniBlock → Incoming R → (AccountsDb × R) × Option Error → Incoming R × Bool
      add_complete mb i (w, some e) = (with_other w i, false)
      add_complete mb i (w, none) =
          (add_mini_block mb (with_other w i), leb max_mbs (length i.mini_blocks + 1))

      unfoldable pub take_requested :
          MiniBlock → Incoming R → AccountsDb → ℕ × R → Incoming R × Bool
      take_requested mb i db (requested, r) =
          if ltb 0 requested
          then (with_other (db, r) i, false)
          else add_complete mb i (process_complete_mini_block mb (db, r))

      unfoldable pub take_mini_block : Option MiniBlock → Incoming R → Incoming R × Bool
      take_mini_block none i = (i, false)
      take_mini_block (some mb) i =
          if not (p.has_preprocessor mb.kind)
          then (i, false)
          else if ltb max_txs ((i.tx_added + length mb.tx_hashes) % 2 ^ 32)
          then (i, true)
          else take_requested mb i i.other.0 (p.request_transactions_for_mini_block mb i.other.1)

      unfoldable pub take_hash : List Bytes → Bytes → Incoming R → Incoming R × Bool
      take_hash processed k i =
          if is_in k processed
          then (count_processed i, false)
          else take_mini_block (p.mini_block_in_pool k) i

      -- the time that is left before a mini-block is a function of the number of those behind it
      unfoldable pub take_hashes :
          (ℕ → Bool) → List Bytes → ℕ → List Bytes → Incoming R → Created × (AccountsDb × R)
      take_hashes has_time processed total [] i = at_end total i
      take_hashes has_time processed total (k ∷ ks) i =
          let r = take_hash processed k i in
          let rest = take_hashes has_time processed total ks r.0 in
          if not (has_time (length ks))
          then at_end total i
          else if r.1
          then unfinished r.0
          else rest

    unfoldable pub create_mbs_and_process_cross_shard_transactions_dst_me :
        ℕ → (ℕ → Bool) → Header → List Bytes → ℕ → ℕ → AccountsDb × R → Created × (AccountsDb × R)
    create_mbs_and_process_cross_shard_transactions_dst_me self_id has_time hdr processed max_txs
          max_mbs w =
        let ks = keys (get_mini_block_headers_with_dst self_id hdr.content) in
        take_hashes max_txs max_mbs has_time processed (length ks) ks
          (record { mini_blocks = []; tx_added = 0; mini_blocks_processed = 0; other = w })
