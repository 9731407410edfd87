-- ===== src/Blocks/OwnHeaders.antt =====
-- shardblock.go and baseProcess.go: the headers of the own shard in the meta blocks that a block
-- completes, and the small computations of CommitBlock.
use elrond_go.Prelude.{
  ℕ, ◌+◌, ◌-◌, ◌%◌, ◌^◌, Bool, false, Option, none, some, List, [], ◌∷◌, ◌++◌, map, ltb, ◌==◌,
  if◌then◌else◌,
}
use elrond_go.Prelude.Bytes.{Bytes}
use elrond_go.Prelude.Int.{two64}
use elrond_go.Prelude.Maps.{lookup}
use elrond_go.Blocks.Types.{
  err_wrong_type_assertion, Result, ok, err, MiniBlockHeader, ShardData, Content, shard_content,
  meta_content, Header,
}
use elrond_go.Blocks.Notarized.{sort_by_nonce}
use elrond_go.Blocks.Processed.{ProcessedMiniBlocks}
use elrond_go.Blocks.Current.{HdrForBlock}
use elrond_go.Blocks.CrossShard.{processed_meta_blocks, sorted}
use elrond_go.Blocks.Process.{mini_block_headers_of}

unfoldable pub mini_block_hashes : List MiniBlockHeader → List Bytes
mini_block_hashes mbs = map (λ mb. mb.hash) mbs

-- getOrderedProcessedMetaBlocksFromHeader
unfoldable pub get_ordered_processed_meta_blocks_from_header :
    ℕ → ProcessedMiniBlocks → HdrForBlock → Header → Result (List Header)
get_ordered_processed_meta_blocks_from_header self_id done d h = sorted (
    processed_meta_blocks self_id done d.hdr_hash_and_info
      (mini_block_hashes (mini_block_headers_of h.content)) [])

-- one header of the own shard, in front of those that follow; the last error counts
unfoldable pub join : Result Header → Result (List Header) → Result (List Header)
join r (err e) = err e
join (err e) (ok hs) = err e
join (ok h) (ok hs) = ok (h ∷ hs)

module _ (get_shard_header : Bytes → Result Header) (shard_id : ℕ) where
  unfoldable pub get_highest_hdr_for_shard_from_metachain : List ShardData → Result (List Header)
  get_highest_hdr_for_shard_from_metachain [] = ok []
  get_highest_hdr_for_shard_from_metachain (d ∷ ds) =
      let rest = get_highest_hdr_for_shard_from_metachain ds in
      if d.shard_id == shard_id then join (get_shard_header d.header_hash) rest else rest

  unfoldable pub of_content : Content → Result (List Header)
  of_content (shard_content i mbs metas) = err err_wrong_type_assertion
  of_content (meta_content info mbs) = get_highest_hdr_for_shard_from_metachain info

  unfoldable pub append_ok : Result (List Header) → Result (List Header) → Result (List Header)
  append_ok (err e) rest = err e
  append_ok (ok hs) (err e) = err e
  append_ok (ok hs) (ok rest) = ok (hs ++ rest)

  unfoldable pub own_headers : List Header → Result (List Header)
  own_headers [] = ok []
  own_headers (h ∷ hs) = append_ok (of_content h.content) (own_headers hs)

  unfoldable pub get_highest_hdr_for_own_shard_from_metachain : List Header → Result (List Header)
  get_highest_hdr_for_own_shard_from_metachain metas = sorted (own_headers (sort_by_nonce metas))

-- an error leaves the nil hash
unfoldable pub hash_or_nil : Result Bytes → Bytes
hash_or_nil (ok hash) = hash
hash_or_nil (err e) = []

-- isShardStuck: more than MaxRoundsWithoutCommittedBlock rounds behind
unfoldable pub is_stuck : ℕ → Option Header → Bool
is_stuck index none = false
is_stuck index (some h) = ltb (h.round + 20) index

unfoldable pub is_shard_stuck : ℕ → ℕ → List (ℕ × Header) → Bool
is_shard_stuck index shard_id last_hdrs = is_stuck index (lookup shard_id last_hdrs)

-- uint32(header.Nonce - highestFinalBlockNonce) + 1
unfoldable pub hdrs_to_attest_previous_final : ℕ → ℕ → ℕ
hdrs_to_attest_previous_final nonce highest =
    ((nonce + (two64 - highest % two64)) % two64 % 2 ^ 32 + 1) % 2 ^ 32
