-- ===== src/Blocks/CrossShard.antt =====
-- shardblock.go: the mini-blocks with destination in this shard, and the meta blocks that a block
-- completes.
use elrond_go.Prelude.{
  ℕ, Bool, true, false, Option, none, some, List, [], ◌∷◌, ltb, leb, ◌==◌, if◌then◌else◌,
}
use elrond_go.Prelude.Bytes.{Bytes}
use elrond_go.Prelude.Keyed.{is_in, lookup_at, insert_at}
use elrond_go.Blocks.Types.{
  Error, err_wrong_type_assertion, err_missing_header,
  err_cross_shard_mb_without_confirmation_from_meta, Result, ok, err, MiniBlock, Content,
  shard_content, meta_content, Header, Codec, mini_block_hash, get_mini_block_headers_with_dst,
}
use elrond_go.Blocks.Notarized.{sort_by_nonce}
use elrond_go.Blocks.Processed.{
  ProcessedMiniBlocks, is_mini_block_processed, add_processed_mini_block,
}
use elrond_go.Blocks.Current.{HdrInfo, HdrForBlock, as_meta}

-- the map of the mini-blocks' hashes that are not matched yet; a hash that cannot be computed is
-- left out
unfoldable pub put_hash : Result Bytes → List Bytes → List Bytes
put_hash (ok hash) rest = hash ∷ rest
put_hash (err e) rest = rest

unfoldable pub cross_hashes_of_body : Codec → ℕ → List MiniBlock → List Bytes
cross_hashes_of_body c self_id [] = []
cross_hashes_of_body c self_id (mb ∷ body) =
    let rest = cross_hashes_of_body c self_id body in
    if mb.sender_shard_id == self_id then rest else put_hash (mini_block_hash c mb) rest

unfoldable pub note_processed :
    Bytes → ProcessedMiniBlocks → List Bytes → List (Bytes × Bool) → List (Bytes × Bool)
note_processed meta done [] m = m
note_processed meta done (hash ∷ cross) m =
    note_processed meta done cross (insert_at hash (is_mini_block_processed meta hash done) m)

unfoldable pub mark_matched : List Bytes → List Bytes → List (Bytes × Bool) → List (Bytes × Bool)
mark_matched cross [] m = m
mark_matched cross (hash ∷ hashes) m =
    mark_matched cross hashes (if is_in hash cross then insert_at hash true m else m)

unfoldable pub unmatched : List Bytes → List Bytes → List Bytes
unmatched cross [] = []
unmatched cross (hash ∷ hashes) =
    let rest = unmatched cross hashes in if is_in hash cross then rest else hash ∷ rest

unfoldable pub is_marked : Option Bool → Bool
is_marked none = false
is_marked (some b) = b

unfoldable pub processed_all : List (Bytes × Bool) → List Bytes → Bool
processed_all m [] = true
processed_all m (hash ∷ cross) =
    let rest = processed_all m cross in if is_marked (lookup_at hash m) then rest else false

unfoldable pub in_front : Bool → Header → Result (List Header) → Result (List Header)
in_front b h (err e) = err e
in_front true h (ok hs) = ok (h ∷ hs)
in_front false h (ok hs) = ok hs

module _ (self_id : ℕ) (done : ProcessedMiniBlocks) where
  -- the loop over the headers for the current block, in the order of the list
  unfoldable pub processed_meta_blocks :
      List (Bytes × HdrInfo) → List Bytes → List (Bytes × Bool) → Result (List Header)
  processed_meta_blocks [] hashes m = ok []
  processed_meta_blocks ((meta, i) ∷ infos) hashes m =
      let skipped = processed_meta_blocks infos hashes m in
      let taken = λ (h : Header).
        let cross = get_mini_block_headers_with_dst self_id h.content in
        let m' = mark_matched cross hashes (note_processed meta done cross m) in
        in_front (processed_all m' cross) h
          (processed_meta_blocks infos (unmatched cross hashes) m') in
      if i.used_in_block
      then elim (as_meta i.hdr) [ none ↦ err err_wrong_type_assertion | some h ↦ taken h ]
      else skipped

unfoldable pub sorted : Result (List Header) → Result (List Header)
sorted (err e) = err e
sorted (ok hs) = ok (sort_by_nonce hs)

-- getOrderedProcessedMetaBlocksFromMiniBlocks
unfoldable pub get_ordered_processed_meta_blocks_from_mini_blocks :
    Codec → ℕ → ProcessedMiniBlocks → HdrForBlock → List MiniBlock → Result (List Header)
get_ordered_processed_meta_blocks_from_mini_blocks c self_id done d body = sorted (
    processed_meta_blocks self_id done d.hdr_hash_and_info (cross_hashes_of_body c self_id body) [])

unfoldable pub meta_block_at : Option HdrInfo → Option Header
meta_block_at none = none
meta_block_at (some i) = as_meta i.hdr

unfoldable pub put_confirmed : List Bytes → Bytes → List (Bytes × Bytes) → List (Bytes × Bytes)
put_confirmed [] meta m = m
put_confirmed (hash ∷ cross) meta m = put_confirmed cross meta (insert_at hash meta m)

-- the meta block is of no later round than the block, and behind the last notarized one
unfoldable pub is_in_order : ℕ → Header → Header → Bool
is_in_order round last h =
    if ltb round h.round
    then false
    else if leb h.round last.round
    then false
    else if leb h.nonce last.nonce
    then false
    else true

unfoldable pub confirm :
    ℕ → ℕ → Header → Bytes → Option Header → List (Bytes × Bytes) → List (Bytes × Bytes)
confirm self_id round last meta none m = m
confirm self_id round last meta (some h) m =
    if is_in_order round last h
    then put_confirmed (get_mini_block_headers_with_dst self_id h.content) meta m
    else m

unfoldable pub get_all_mini_block_dst_me_from_meta :
    ℕ → ℕ → Header → HdrForBlock → List Bytes → List (Bytes × Bytes) → List (Bytes × Bytes)
get_all_mini_block_dst_me_from_meta self_id round last d [] m = m
get_all_mini_block_dst_me_from_meta self_id round last d (meta ∷ metas) m =
    get_all_mini_block_dst_me_from_meta self_id round last d metas
      (confirm self_id round last meta (meta_block_at (lookup_at meta d.hdr_hash_and_info)) m)

unfoldable pub is_confirmed : Option Bytes → Bool
is_confirmed none = false
is_confirmed (some meta) = true

unfoldable pub check_confirmed : List (Bytes × Bytes) → List Bytes → Option Error
check_confirmed m [] = none
check_confirmed m (hash ∷ cross) =
    let rest = check_confirmed m cross in
    if is_confirmed (lookup_at hash m)
    then rest
    else some err_cross_shard_mb_without_confirmation_from_meta

unfoldable pub meta_block_hashes_of : Content → List Bytes
meta_block_hashes_of (shard_content i mbs metas) = metas
meta_block_hashes_of (meta_content info mbs) = []

unfoldable pub verify_cross_shard_mini_block_dst_me :
    ℕ → HdrForBlock → Header → Result Header → Option Error
verify_cross_shard_mini_block_dst_me self_id d h (err e) = some e
verify_cross_shard_mini_block_dst_me self_id d h (ok last) =
    check_confirmed
      (get_all_mini_block_dst_me_from_meta self_id h.round last d (meta_block_hashes_of h.content)
        [])
      (get_mini_block_headers_with_dst self_id h.content)

unfoldable pub unmatched_and_added :
    Bytes → List Bytes → List Bytes → ProcessedMiniBlocks → ProcessedMiniBlocks
unmatched_and_added meta cross [] s = s
unmatched_and_added meta cross (hash ∷ hashes) s =
    unmatched_and_added meta cross hashes
      (if is_in hash cross then add_processed_mini_block meta hash s else s)

-- addProcessedCrossMiniBlocksFromHeader, over the meta hashes of the header; what was added before
-- an error stays
unfoldable pub add_processed_cross_mini_blocks :
    ℕ
    → HdrForBlock
    → List Bytes
    → List Bytes
    → ProcessedMiniBlocks
    → ProcessedMiniBlocks × Option Error
add_processed_cross_mini_blocks self_id d [] hashes s = (s, none)
add_processed_cross_mini_blocks self_id d (meta ∷ metas) hashes s =
    let added = λ (h : Header).
      let cross = get_mini_block_headers_with_dst self_id h.content in
      add_processed_cross_mini_blocks self_id d metas (unmatched cross hashes)
        (unmatched_and_added meta cross hashes s) in
    elim (lookup_at meta d.hdr_hash_and_info) [
      | none ↦ (s, some err_missing_header)
      | some i ↦ elim (as_meta i.hdr) [
        | none ↦ (s, some err_wrong_type_assertion)
        | some h ↦ added h
      ]
    ]
