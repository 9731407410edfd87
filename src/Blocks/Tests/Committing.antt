-- ===== src/Blocks/Tests/Committing.antt =====
-- Two blocks of a shard, committed one after the other.
use elrond_go.Prelude.{ℕ, ◌≡◌, refl, Option, none, some, List, [], ◌∷◌}
use elrond_go.Prelude.Bytes.{bytes_eq}
use elrond_go.Prelude.Maps.{lookup, insert, update_each}
use elrond_go.Accounts.Tests.{storage}
use elrond_go.Accounts.Store.{clear_journal}
use elrond_go.Blocks.Types.{
  external, err, MiniBlock, Header, is_shard_content, calculate_hash, header_hash, unless_error,
}
use elrond_go.Blocks.Validity.{
  check_first, check_follows, check_link, check_against, check_block_validity, check_type,
  check_header_type_correct,
}
use elrond_go.Blocks.Notarized.{
  headers_of, slice_of, last_of, last_notarized_hdr_for_shard, add_last_notarized_hdr, behind_final,
  for_each_shard, remove_notarized_hdrs_behind_previous_final, sort_by_nonce, check_each,
  check_from, save_checked, save_last_notarized_header, last_checked, get_last_notarized_hdr,
}
use elrond_go.Blocks.CrossShard.{
  processed_meta_blocks, sorted, meta_block_hashes_of, add_processed_cross_mini_blocks,
}
use elrond_go.Blocks.Process.{then_do, mini_block_headers_of, with_rest}
use elrond_go.Blocks.Commit.{
  Ledger, Commits, on_world, put_body, with_processed, with_notarized, with_db, commit_all,
  remove_meta_blocks, remove_processed_meta_blocks_from_pool, last_notarized_meta, clean_up,
  set_current, report_committed, finish, commit_metas, commit_processed, commit_hashed,
  commit_valid, revert_if_failed, commit_block,
}
use elrond_go.Blocks.OwnHeaders.{
  mini_block_hashes, get_ordered_processed_meta_blocks_from_header, own_headers,
  get_highest_hdr_for_own_shard_from_metachain, is_shard_stuck, is_stuck,
  hdrs_to_attest_previous_final,
}
use elrond_go.Blocks.Ledger.{commit_blocks, Extended, commit_blocks-Extended}
use elrond_go.Blocks.Tests.{codec, shard_start}
use elrond_go.Blocks.Tests.Processing.{components, settings, world}

abbrev commits : Commits ℕ
commits = record {
  put_header = λ h hash r. r;
  save_block_data_to_storage = λ body r. (r, none);
  put_mini_block = λ mb hash r. r;
  get_shard_header = λ r hash. err (external 1);
  commit_accounts = λ db. (clear_journal db, none);
  commit_peer_state = λ r. (r, none);
  remove_block_data_from_pool = λ body r. r;
  put_meta_block = λ h hash r. (r, none);
  add_header = λ h hash finals hashes stuck r. r;
  get_highest_final_block_nonce = λ r. 0;
  round_index = λ r. 20;
  report = λ h finals hashes done r. r;
}

abbrev second : Header
second = record shard_start { nonce = 2; round = 6; prev_hash = 1 ∷ 5 ∷ [] }

abbrev blocks : List (Option Header × Option (List MiniBlock))
blocks = (some shard_start, some []) ∷ (some second, some []) ∷ []

abbrev empty_ledger : Ledger ℕ
empty_ledger = record {
  world = world;
  chain = record { current_block_header = none; genesis_header_hash = 0 ∷ 4 ∷ [] };
  current_block_body = none;
  current_block_header_hash = [];
}

abbrev after_blocks : Ledger ℕ
after_blocks = (commit_blocks components commits storage codec settings blocks empty_ledger).0

blocks_committed :
    commit_blocks components commits storage codec settings blocks empty_ledger
    ≡ (after_blocks, none)
unfolding commit_blocks then_do commit_block revert_if_failed check_block_validity check_against
    check_first check_follows check_link header_hash calculate_hash bytes_eq commit_valid
    is_shard_content commit_hashed on_world with_rest put_body commit_processed
    get_ordered_processed_meta_blocks_from_header processed_meta_blocks sorted sort_by_nonce
    with_processed add_processed_cross_mini_blocks meta_block_hashes_of mini_block_hashes
    mini_block_headers_of commit_metas get_highest_hdr_for_own_shard_from_metachain own_headers
    with_notarized save_last_notarized_header save_checked unless_error check_from check_each
    last_notarized_hdr_for_shard headers_of slice_of last_of lookup check_header_type_correct
    check_type add_last_notarized_hdr insert commit_all with_db finish clean_up
    remove_processed_meta_blocks_from_pool last_notarized_meta get_last_notarized_hdr last_checked
    remove_meta_blocks is_shard_stuck is_stuck hdrs_to_attest_previous_final
    remove_notarized_hdrs_behind_previous_final for_each_shard update_each behind_final
    report_committed set_current clear_journal
blocks_committed = refl

commit_blocks-Extended_example :
    Extended components commits storage codec settings blocks empty_ledger after_blocks
commit_blocks-Extended_example =
    commit_blocks-Extended components commits storage codec settings blocks empty_ledger
      after_blocks blocks_committed
