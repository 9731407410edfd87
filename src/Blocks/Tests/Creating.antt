-- ===== src/Blocks/Tests/Creating.antt =====
-- A block that uses meta headers of a small chain: the theorem at a concrete input.
use elrond_go.Prelude.{
  ℕ, ◌≡◌, refl, ◌+◌, ◌<◌, ◌==◌, length, none, false, Bool, Option, true, some, List, [], ◌∷◌, arith,
  map,
}
use elrond_go.Prelude.Bytes.{Bytes, bytes_eq}
use elrond_go.Prelude.Int.{◌-ℤ◌}
use elrond_go.Prelude.Keyed.{is_in, lookup_at, insert_at}
use elrond_go.Blocks.Types.{
  MiniBlock, MiniBlockHeader, ShardData, meta_content, Header, calculate_hash, header_hash,
  with_dst, shard_info_with_dst, get_mini_block_headers_with_dst, err_wrong_nonce_in_block,
}
use elrond_go.Blocks.Validity.{check_link, check_follows, is_hdr_construction_valid}
use elrond_go.Blocks.Notarized.{sort_by_nonce}
use elrond_go.Blocks.Finality.{
  is_nil, attests, next_blocks_verified, is_meta_header_final, check_meta_hdr_finality, check_used,
}
use elrond_go.Blocks.Processed.{hashes_of, get_processed_mini_blocks_hashes}
use elrond_go.Blocks.Current.{is_empty}
use elrond_go.Blocks.Requested.{NoRepeats}
use elrond_go.Blocks.Create.{
  first_creation, use_header, use_if_added, add_created, with_last, items_in_header, is_full,
  is_next, space_remained, to_uint32, min_int32, get_max_mini_blocks_space_remained, is_positive,
  mb_space, has_space, create_for, create_cross,
}
use elrond_go.Accounts.Store.{journal_len}
use elrond_go.Accounts.Tests.{storage, one_account}
use elrond_go.Blocks.Incoming.{
  Preprocessors, keys, count_processed, add_mini_block, with_other, unfinished, at_end, revert_if,
  process_complete_mini_block, add_complete, take_requested, take_mini_block, take_hash,
  take_hashes, create_mbs_and_process_cross_shard_transactions_dst_me,
}
use elrond_go.Blocks.Brought.{count_in, Filled}
use elrond_go.Blocks.Used.{header_list, used_headers, Valid}
use elrond_go.Blocks.Accepted.{check_used-create_mbs}
use elrond_go.Prelude.Maps.{All}
use elrond_go.Blocks.Tests.{codec, meta_at}

-- a mini-block from the shard 1 to the shard 0
abbrev incoming : MiniBlockHeader
incoming = record {
  hash = 9 ∷ [];
  sender_shard_id = 1;
  receiver_shard_id = 0;
  tx_count = 1;
  kind = 0;
}

abbrev from_shard : ShardData
from_shard = record { shard_id = 1; header_hash = 8 ∷ []; shard_mini_block_headers = incoming ∷ [] }

abbrev bringing : Header
bringing = record (meta_at 5) { content = meta_content (from_shard ∷ []) [] }

-- the last of them is not final
abbrev metas : List (Bytes × Header)
metas = (1 ∷ [], bringing) ∷ (2 ∷ [], meta_at 6) ∷ (3 ∷ [], meta_at 7) ∷ []

abbrev always : ℕ → Bool
always n = true

-- the pool has the mini-block with its transactions under its hash, and the transactions change nothing
abbrev pooled : Bool → List Bytes → Option MiniBlock
pooled true txs =
    some (record { tx_hashes = txs; receiver_shard_id = 0; sender_shard_id = 1; kind = 0 })
pooled false txs = none

abbrev pool : List Bytes → Preprocessors ℕ
pool txs = record {
  mini_block_in_pool = λ k. pooled (bytes_eq k (9 ∷ [])) txs;
  has_preprocessor = λ kind. kind == 0;
  request_transactions_for_mini_block = λ mb r. (0, r);
  process_mini_block = λ mb round db r. ((db, r + 1), none);
}

abbrev used_with : List Bytes → List Header
used_with txs =
    used_headers
      (create_cross codec 0 1 100 [] always
        (create_mbs_and_process_cross_shard_transactions_dst_me storage (pool txs) 20 0 always)
        metas (first_creation (meta_at 4) (one_account, 0))).infos

metas-NoRepeats : NoRepeats (map (λ x. x.0) metas)
unfolding is_in bytes_eq
metas-NoRepeats = (refl, (refl, (refl, tt)))

two_used : used_with ((7 ∷ []) ∷ []) ≡ bringing ∷ meta_at 6 ∷ []
unfolding header_list used_headers create_cross first_creation use_header use_if_added add_created
    with_last items_in_header is_full is_next space_remained to_uint32 min_int32
    get_max_mini_blocks_space_remained is_positive ◌-ℤ◌ mb_space has_space create_for insert_at
    bytes_eq get_processed_mini_blocks_hashes is_empty is_nil attests next_blocks_verified
    is_meta_header_final is_hdr_construction_valid check_follows check_link header_hash
    calculate_hash with_dst shard_info_with_dst get_mini_block_headers_with_dst
    create_mbs_and_process_cross_shard_transactions_dst_me keys is_in take_hashes take_hash
    take_mini_block take_requested add_complete process_complete_mini_block revert_if at_end
    unfinished with_other add_mini_block count_processed journal_len hashes_of lookup_at
two_used = refl

-- where the meta block is finished without a transaction, the headers behind it are used without it
gap_refused :
    check_used codec 1 (meta_at 7 ∷ []) (used_with []) (meta_at 4) ≡ some err_wrong_nonce_in_block
unfolding header_list used_headers create_cross first_creation use_header use_if_added add_created
    with_last items_in_header is_full is_next space_remained to_uint32 min_int32
    get_max_mini_blocks_space_remained is_positive ◌-ℤ◌ mb_space has_space create_for insert_at
    bytes_eq get_processed_mini_blocks_hashes is_empty is_nil attests next_blocks_verified
    is_meta_header_final is_hdr_construction_valid check_follows check_link header_hash
    calculate_hash with_dst shard_info_with_dst get_mini_block_headers_with_dst
    create_mbs_and_process_cross_shard_transactions_dst_me keys is_in take_hashes take_hash
    take_mini_block take_requested add_complete process_complete_mini_block revert_if at_end
    unfinished with_other add_mini_block count_processed journal_len hashes_of lookup_at check_used
gap_refused = refl

Filled-pooled : (b : Bool) → Filled (pooled b ((7 ∷ []) ∷ []))
Filled-pooled true = (omega arith, omega arith)
Filled-pooled false = tt

abbrev PendingAt : Bytes → Header → Type 0
PendingAt k h =
    is_empty (get_mini_block_headers_with_dst 0 h.content) ≡ false
    → count_in (get_processed_mini_blocks_hashes k [])
        (keys (get_mini_block_headers_with_dst 0 h.content))
      < length (keys (get_mini_block_headers_with_dst 0 h.content))

metas-Pending : All (λ x. PendingAt x.0 x.1) metas
unfolding get_mini_block_headers_with_dst shard_info_with_dst with_dst is_empty count_in keys
    get_processed_mini_blocks_hashes is_in hashes_of lookup_at
metas-Pending = ((λ e. ground arith), ((λ e. ground arith), ((λ e. ground arith), tt)))

check_used-create_mbs_example :
    (l : Header) × Valid codec (meta_at 4) (used_with ((7 ∷ []) ∷ [])) l
    × (check_used codec 1 (meta_at 7 ∷ []) (sort_by_nonce (used_with ((7 ∷ []) ∷ []))) (meta_at 4)
        ≡ check_meta_hdr_finality codec 1 (some l) (meta_at 7 ∷ []))
check_used-create_mbs_example =
    check_used-create_mbs codec 0 1 100 [] always storage (pool ((7 ∷ []) ∷ [])) 20 always metas
      (meta_at 7 ∷ []) (meta_at 4) (one_account, 0) (omega arith)
      (λ k. Filled-pooled (bytes_eq k (9 ∷ []))) metas-NoRepeats metas-Pending (omega arith)
