-- ===== src/Blocks/Accepted.antt =====
-- A new block whose meta blocks the transaction coordinator executes, against the checks of the nodes
-- that process it.
use elrond_go.Prelude.{
  ℕ, ◌≡◌, ◌^◌, ◌≤◌, ◌<◌, inl, inr, Bool, true, false, some, List, arith, leb, Bool-cases, map,
  length,
}
use elrond_go.Prelude.Bytes.{Bytes}
use elrond_go.Prelude.Int.{◌-ℤ◌, two64}
use elrond_go.Prelude.Maps.{All, All-map}
use elrond_go.Accounts.Types.{AccountsDb, Storage}
use elrond_go.Blocks.Types.{Header, Codec, get_mini_block_headers_with_dst}
use elrond_go.Blocks.Notarized.{sort_by_nonce}
use elrond_go.Blocks.Finality.{check_meta_hdr_finality, check_used}
use elrond_go.Blocks.Processed.{ProcessedMiniBlocks, get_processed_mini_blocks_hashes}
use elrond_go.Blocks.Current.{is_empty}
use elrond_go.Blocks.Requested.{NoRepeats}
use elrond_go.Blocks.Create.{
  Created, Creation, first_creation, space_remained, to_uint32, is_positive, has_space, create_for,
  create_cross,
}
use elrond_go.Blocks.Incoming.{
  Preprocessors, keys, create_mbs_and_process_cross_shard_transactions_dst_me,
}
use elrond_go.Blocks.Brought.{count_in, Filled, create_mbs-brings}
use elrond_go.Blocks.Used.{used_headers, Valid}
use elrond_go.Blocks.Proposed.{Brings, check_used-create_cross}

to_uint32-space_remained :
    (most added : ℕ)
    → is_positive (space_remained most added) ≡ true
    → to_uint32 (space_remained most added) ≤ most
unfolding to_uint32 space_remained is_positive ◌-ℤ◌
to_uint32-space_remained most added e = ground arith

module _ {R : Type 0} (c : Codec) (self_id finality max_items : ℕ) (done : ProcessedMiniBlocks)
    (has_time : ℕ → Bool) (s : Storage) (p : Preprocessors R) (round : ℕ)
    (has_time_for : ℕ → Bool) where
  -- not all of the mini-blocks that a meta block has for the shard are processed
  abbrev Pending : Bytes × Header → Type 0
  Pending (k, h) =
      is_empty (get_mini_block_headers_with_dst self_id h.content) ≡ false
      → count_in (get_processed_mini_blocks_hashes k done)
          (keys (get_mini_block_headers_with_dst self_id h.content))
        < length (keys (get_mini_block_headers_with_dst self_id h.content))

  -- CreateMbsAndProcessCrossShardTransactionsDstMe, as the loop over the meta blocks calls it
  abbrev create_mbs : Header → List Bytes → ℕ → ℕ → AccountsDb × R → Created × (AccountsDb × R)
  create_mbs = create_mbs_and_process_cross_shard_transactions_dst_me s p round self_id has_time_for

  has_space-positive :
      (st : Creation (AccountsDb × R))
      → has_space c self_id finality max_items done has_time create_mbs st ≡ true
      → is_positive (space_remained max_items st.txs_added) ≡ true
  unfolding has_space
  has_space-positive st e = elim (Bool-cases (leb max_items st.txs_added)) [
    | inl t ↦ let q = rw t at e in cc
    | inr t ↦ elim (Bool-cases (is_positive (space_remained max_items st.txs_added))) [
      | inl u ↦ u
      | inr u ↦ let q = rw (t, u) at e in cc
    ]
  ]

  Pending-Brings :
      (x : Bytes × Header)
      → max_items < 2 ^ 31
      → ((k : Bytes) → Filled (p.mini_block_in_pool k))
      → Pending x
      → Brings c self_id finality max_items done has_time create_mbs x
  unfolding Brings create_for
  Pending-Brings (k, h) b filled pending st e d f =
      let l = to_uint32-space_remained max_items st.txs_added (has_space-positive st d) in
      create_mbs-brings s p round self_id has_time_for h (get_processed_mini_blocks_hashes k done) _
        _ st.other (omega (arith, l, b)) filled (pending e) f

  -- Where the limit of the items is below 2 ^ 31, each mini-block of the pool has at least one
  -- transaction and fewer than 2 ^ 31 of them, the hashes of the meta blocks are distinct, each of
  -- them that has mini-blocks for the shard has one that is not processed, and the nonce of the last
  -- notarized meta block is of 64 bits: each of the headers that createAndProcessCrossMiniBlocksDstMe
  -- uses, with CreateMbsAndProcessCrossShardTransactionsDstMe as the coordinator's call, is valid
  -- behind the one before, the first of them behind the last notarized one, and the check of the used
  -- headers in checkMetaHeadersValidityAndFinality, on these headers in the order of their nonces,
  -- comes to the check of the finality of the last one.
  pub check_used-create_mbs :
      (metas : List (Bytes × Header)) (attesting : List Header) (h0 : Header) (w : AccountsDb × R)
      → max_items < 2 ^ 31
      → ((k : Bytes) → Filled (p.mini_block_in_pool k))
      → NoRepeats (map (λ x. x.0) metas)
      → All Pending metas
      → h0.nonce < two64
      → (l : Header) × Valid c h0
          (used_headers
            (create_cross c self_id finality max_items done has_time create_mbs metas
              (first_creation h0 w)).infos)
          l
        × (check_used c finality attesting
              (sort_by_nonce (
                used_headers
                  (create_cross c self_id finality max_items done has_time create_mbs metas
                    (first_creation h0 w)).infos))
              h0
            ≡ check_meta_hdr_finality c finality (some l) attesting)
  check_used-create_mbs metas attesting h0 w b filled n pending o =
      check_used-create_cross c self_id finality max_items done has_time create_mbs h0 metas
        attesting w
        (All-map Pending (Brings c self_id finality max_items done has_time create_mbs)
          (λ x a. Pending-Brings x b filled a) metas pending)
        n o
