-- ===== src/Blocks/Create.antt =====
-- shardblock.go: createAndProcessCrossMiniBlocksDstMe, which fills a new block with what meta blocks
-- bring from other shards, getOrderedMetaBlocks and getMaxMiniBlocksSpaceRemained. The transaction
-- coordinator and the time that is left are parameters.
use elrond_go.Prelude.{
  ℕ, ◌+◌, ◌-◌, ◌%◌, ◌^◌, Bool, true, false, not, some, List, [], ◌∷◌, ◌++◌, map, ltb, leb,
  if◌then◌else◌, length,
}
use elrond_go.Prelude.Bytes.{Bytes}
use elrond_go.Prelude.Int.{ℤ, pos, negsuc, ◌-ℤ◌, ltb_ℤ}
use elrond_go.Prelude.Keyed.{insert_at}
use elrond_go.Blocks.Types.{
  MiniBlock, Header, is_shard_content, Codec, get_mini_block_headers_with_dst,
}
use elrond_go.Blocks.Validity.{is_hdr_construction_valid}
use elrond_go.Blocks.Finality.{is_nil, is_meta_header_final}
use elrond_go.Blocks.Processed.{ProcessedMiniBlocks, get_processed_mini_blocks_hashes}
use elrond_go.Blocks.Current.{HdrInfo, is_empty}
use elrond_go.Blocks.CrossShard.{is_in_order}

-- the order of the nonces, over the headers with their hashes
unfoldable pub insert_pair : Bytes × Header → List (Bytes × Header) → List (Bytes × Header)
insert_pair a [] = a ∷ []
insert_pair a (x ∷ xs) =
    let rest = insert_pair a xs in if ltb x.1.nonce a.1.nonce then x ∷ rest else a ∷ x ∷ xs

unfoldable pub sort_pairs : List (Bytes × Header) → List (Bytes × Header)
sort_pairs [] = []
sort_pairs (x ∷ xs) = insert_pair x (sort_pairs xs)

-- the meta blocks of the pool that are of no later round and behind the last notarized one
unfoldable pub metas_in_order : ℕ → Header → List (Bytes × Header) → List (Bytes × Header)
metas_in_order round last [] = []
metas_in_order round last ((hash, h) ∷ m) =
    let rest = metas_in_order round last m in
    if is_shard_content h.content
    then rest
    else if is_in_order round last h
    then (hash, h) ∷ rest
    else rest

unfoldable pub get_ordered_meta_blocks : ℕ → Header → List (Bytes × Header) → List (Bytes × Header)
get_ordered_meta_blocks round last pool = sort_pairs (metas_in_order round last pool)

-- int32 of numbers below 2 ^ 31, and the uint32 of an int32
unfoldable pub space_remained : ℕ → ℕ → ℤ
space_remained most added = pos most -ℤ pos added

unfoldable pub to_uint32 : ℤ → ℕ
to_uint32 (pos n) = n % 2 ^ 32
to_uint32 (negsuc n) = 2 ^ 32 - 1 - n % 2 ^ 32

unfoldable pub min_int32 : ℤ → ℤ → ℤ
min_int32 a b = if ltb_ℤ a b then a else b

abbrev pub max_mini_blocks_in_block : ℕ
max_mini_blocks_in_block = 100

unfoldable pub get_max_mini_blocks_space_remained : ℕ → ℕ → ℕ → ℤ
get_max_mini_blocks_space_remained max_items items mini_blocks =
    min_int32 (space_remained max_items items) (space_remained max_mini_blocks_in_block mini_blocks)

unfoldable pub is_positive : ℤ → Bool
is_positive i = ltb_ℤ (pos 0) i

-- what the transaction coordinator makes of a meta block: the mini-blocks, the number of their
-- transactions, and whether the meta block is finished
pub record Created : Type 0 where
  pub mini_blocks : List MiniBlock
  pub txs : ℕ
  pub is_finished : Bool

-- the state of the loop; `other` is of the accounts and of the other components
pub record Creation (W : Type 0) : Type 0 where
  pub infos : List (Bytes × HdrInfo)
  pub mini_blocks : List MiniBlock
  pub txs_added : ℕ
  pub hdrs_added : ℕ
  pub last : Header
  pub other : W

module _ {W : Type 0} where
  -- before the loop, with no header for the block behind createBlockStarted
  unfoldable pub first_creation : Header → W → Creation W
  first_creation last w = record {
    infos = [];
    mini_blocks = [];
    txs_added = 0;
    hdrs_added = 0;
    last = last;
    other = w;
  }

  unfoldable pub use_header : Bytes → Header → Creation W → Creation W
  use_header hash h s = record s {
    infos = insert_at hash (record { used_in_block = true; hdr = some h }) s.infos;
    hdrs_added = (s.hdrs_added + 1) % 2 ^ 32;
  }

  unfoldable pub use_if_added : Bytes → Header → ℕ → Creation W → Creation W
  use_if_added hash h txs s = if ltb 0 txs then use_header hash h s else s

  unfoldable pub add_created : Bytes → Header → Created × W → Creation W → Creation W
  add_created hash h (r, w) s = use_if_added hash h r.txs (record s {
    mini_blocks = s.mini_blocks ++ r.mini_blocks;
    txs_added = (s.txs_added + r.txs) % 2 ^ 32;
    other = w;
  })

  unfoldable pub with_last : Header → Creation W → Creation W
  with_last h s = record s { last = h }

  module _ (c : Codec) (self_id finality max_items : ℕ) (done : ProcessedMiniBlocks)
      (has_time : ℕ → Bool) (create : Header → List Bytes → ℕ → ℕ → W → Created × W) where
    unfoldable pub items_in_header : Creation W → ℕ
    items_in_header s = length s.infos + length s.mini_blocks

    -- the loop ends before a meta block
    unfoldable pub is_full : ℕ → Creation W → Bool
    is_full left s =
        if not (has_time left)
        then true
        else if leb max_mini_blocks_in_block (length s.mini_blocks)
        then true
        else leb max_items (items_in_header s)

    -- a meta block that is no successor of the last one, or is not final, is passed over
    unfoldable pub is_next : Header → List (Bytes × Header) → Creation W → Bool
    is_next h later s =
        if is_nil (is_hdr_construction_valid c h (some s.last))
        then is_meta_header_final c finality (some h) (map (λ x. x.1) later)
        else false

    unfoldable pub mb_space : Creation W → ℤ
    mb_space s =
        get_max_mini_blocks_space_remained max_items (items_in_header s + 1) (length s.mini_blocks)

    unfoldable pub has_space : Creation W → Bool
    has_space s =
        if leb max_items s.txs_added
        then false
        else if is_positive (space_remained max_items s.txs_added)
        then is_positive (mb_space s)
        else false

    unfoldable pub create_for : Bytes → Header → Creation W → Created × W
    create_for hash h s =
        create h (get_processed_mini_blocks_hashes hash done)
          (to_uint32 (space_remained max_items s.txs_added)) (to_uint32 (mb_space s)) s.other

    -- the loop of createAndProcessCrossMiniBlocksDstMe
    unfoldable pub create_cross : List (Bytes × Header) → Creation W → Creation W
    create_cross [] s = s
    create_cross ((hash, h) ∷ later) s =
        let r = create_for hash h s in
        let added = add_created hash h r s in
        let passed = create_cross later s in
        let without_txs = create_cross later (with_last h (use_header hash h s)) in
        let finished = create_cross later (with_last h added) in
        if is_full (length later) s
        then s
        else if not (is_next h later s)
        then passed
        else if is_empty (get_mini_block_headers_with_dst self_id h.content)
        then without_txs
        else if not (has_space s)
        then passed
        else if r.0.is_finished
        then finished
        else added
