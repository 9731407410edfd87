-- ===== src/Blocks/Arrivals.antt =====
-- shardblock.go and baseProcess.go: receivedMetaBlock, which takes the meta blocks that arrive, and
-- waitForMetaHdrHashes.
use elrond_go.Prelude.{
  ℕ, ◌+◌, ◌%◌, Bool, true, false, Option, none, some, List, [], ◌∷◌, ltb, if◌then◌else◌,
}
use elrond_go.Prelude.Bytes.{Bytes}
use elrond_go.Prelude.Int.{two64}
use elrond_go.Prelude.Maps.{delete}
use elrond_go.Prelude.Keyed.{lookup_at, insert_at, delete_at}
use elrond_go.Blocks.Types.{Error, err_time_is_out, Result, ok, err, Header, get_shard_id}
use elrond_go.Blocks.Notarized.{HeaderLists, get_last_notarized_hdr, set_last_hdr_for_shard}
use elrond_go.Blocks.Current.{
  HdrForBlock, HdrInfo, MetaPool, Shard, down32, get_meta_header_from_pool, raise_highest,
  request_if_none_missing,
}

-- a requested header that was still missing
unfoldable pub is_awaited : Option HdrInfo → Bool
is_awaited none = false
is_awaited (some i) = elim i.hdr [ none ↦ true | some h ↦ false ]

unfoldable pub fill : Bytes → Header → Option HdrInfo → HdrForBlock → HdrForBlock
fill hash h none d = d
fill hash h (some i) d = raise_highest h (record d {
  missing_hdrs = down32 d.missing_hdrs;
  hdr_hash_and_info = insert_at hash (record i { hdr = some h }) d.hdr_hash_and_info;
})

unfoldable pub take_meta_block : Bytes → Header → HdrForBlock → HdrForBlock
take_meta_block hash h d =
    let info = lookup_at hash d.hdr_hash_and_info in
    if is_awaited info then fill hash h info d else d

unfoldable pub have_missing : HdrForBlock → Bool
have_missing d = if ltb 0 d.missing_hdrs then true else ltb 0 d.missing_finality_attesting_hdrs

-- what receivedMetaBlock does with the headers for the current block
unfoldable pub receive_for_block : MetaPool → ℕ → Bytes → Header → HdrForBlock → HdrForBlock
receive_for_block p finality hash h d =
    if have_missing d then request_if_none_missing p finality (take_meta_block hash h d) else d

unfoldable pub nonce_limit : ℕ → Result Header → Option ℕ
nonce_limit allowed_size (err e) = none
nonce_limit allowed_size (ok last) = some ((last.nonce + allowed_size) % two64)

-- The share of the cache's size that is allowed is an argument.
unfoldable pub is_header_out_of_range : ℕ → ℕ → Header → HeaderLists → Bool
is_header_out_of_range number_of_shards allowed_size h m =
    elim (nonce_limit allowed_size (get_last_notarized_hdr number_of_shards (get_shard_id h) m)) [
      | none ↦ false
      | some limit ↦ ltb limit h.nonce
    ]

unfoldable pub remove_from_pool : Bytes → Header → MetaPool → MetaPool
remove_from_pool hash h p = record {
  meta_blocks = delete_at hash p.meta_blocks;
  headers_nonces = delete h.nonce p.headers_nonces;
}

unfoldable pub drop_out_of_range : ℕ → ℕ → Bytes → Header → Shard → Shard
drop_out_of_range number_of_shards allowed_size hash h s =
    if is_header_out_of_range number_of_shards allowed_size h s.notarized_hdrs
    then record s { pool = remove_from_pool hash h s.pool }
    else s

unfoldable pub receive_found : ℕ → ℕ → ℕ → Bytes → Option Header → Shard → Shard
receive_found number_of_shards allowed_size finality hash none s = s
receive_found number_of_shards allowed_size finality hash (some h) s =
    drop_out_of_range number_of_shards allowed_size hash h (record s {
      current = receive_for_block s.pool finality hash h s.current;
      last_hdrs = set_last_hdr_for_shard (get_shard_id h) (some h) s.last_hdrs;
    })

-- receivedMetaBlock, without the requests for the mini-blocks of the meta block
unfoldable pub received_meta_block : ℕ → ℕ → ℕ → Bytes → Shard → Shard
received_meta_block number_of_shards allowed_size finality hash s =
    receive_found number_of_shards allowed_size finality hash
      (get_meta_header_from_pool hash s.pool) s

-- a meta block that arrives: it is put into the cache, which calls the handler
unfoldable pub arrive : ℕ → ℕ → ℕ → Bytes × Header → Shard → Shard
arrive number_of_shards allowed_size finality (hash, h) s =
    received_meta_block number_of_shards allowed_size finality hash
      (record s { pool = record s.pool { meta_blocks = insert_at hash h s.pool.meta_blocks } })

-- waitForMetaHdrHashes, over the meta blocks that arrive in time: it goes on when none is missing
-- any longer
unfoldable pub wait_for_meta_hdr_hashes :
    ℕ → ℕ → ℕ → List (Bytes × Header) → Shard → Shard × Option Error
wait_for_meta_hdr_hashes number_of_shards allowed_size finality [] s = (s, some err_time_is_out)
wait_for_meta_hdr_hashes number_of_shards allowed_size finality (a ∷ arrivals) s =
    let s' = arrive number_of_shards allowed_size finality a s in
    let rest = wait_for_meta_hdr_hashes number_of_shards allowed_size finality arrivals s' in
    if have_missing s'.current then rest else (s', none)
