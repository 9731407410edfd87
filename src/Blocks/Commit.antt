-- ===== src/Blocks/Commit.antt =====
-- shardblock.go: CommitBlock, with the accounts, the notarized headers and the chain. The storage, the
-- pools of the own shard, the fork detector and what only reports are a record of operations.
use elrond_go.Prelude.{ℕ, Bool, Option, none, some, List, [], ◌∷◌, map, ltb, if◌then◌else◌}
use elrond_go.Prelude.Bytes.{Bytes}
use elrond_go.Accounts.Types.{AccountsDb, Storage}
use elrond_go.Blocks.Types.{
  Error, err_nil_block_header, err_wrong_type_assertion, Result, ok, err, MiniBlock, Header,
  is_shard_content, metachain_shard_id, Codec, header_hash, mini_block_hash,
}
use elrond_go.Blocks.Validity.{Chain, check_block_validity}
use elrond_go.Blocks.Notarized.{
  HeaderLists, get_last_notarized_hdr, save_last_notarized_header,
  remove_notarized_hdrs_behind_previous_final,
}
use elrond_go.Blocks.Processed.{ProcessedMiniBlocks, remove_all_processed_mini_blocks}
use elrond_go.Blocks.Arrivals.{remove_from_pool}
use elrond_go.Blocks.CrossShard.{meta_block_hashes_of, add_processed_cross_mini_blocks}
use elrond_go.Blocks.Process.{
  World, Components, Settings, then_do, mini_block_headers_of, with_rest, revert_account_state,
}
use elrond_go.Blocks.OwnHeaders.{
  mini_block_hashes, get_highest_hdr_for_own_shard_from_metachain,
  get_ordered_processed_meta_blocks_from_header, hash_or_nil, hdrs_to_attest_previous_final,
  is_shard_stuck,
}

-- the world with the chain: its current header, body and hash
pub record Ledger (R : Type 0) : Type 0 where
  pub world : World R
  pub chain : Chain
  pub current_block_body : Option (List MiniBlock)
  pub current_block_header_hash : Bytes

-- the other components, as CommitBlock calls them
pub record Commits (R : Type 0) : Type 0 where
  pub put_header : Header → Bytes → R → R
  pub save_block_data_to_storage : List MiniBlock → R → R × Option Error
  pub put_mini_block : MiniBlock → Bytes → R → R
  pub get_shard_header : R → Bytes → Result Header
  pub commit_accounts : AccountsDb → AccountsDb × Option Error
  pub commit_peer_state : R → R × Option Error
  pub remove_block_data_from_pool : List MiniBlock → R → R
  pub put_meta_block : Header → Bytes → R → R × Option Error
  pub add_header : Header → Bytes → List Header → List Bytes → Bool → R → R
  pub get_highest_final_block_nonce : R → ℕ
  pub round_index : R → ℕ
  pub report : Header → List Header → List Bytes → ProcessedMiniBlocks → R → R

module _ {R : Type 0} where
  unfoldable pub on_world : World R × Option Error → Ledger R → Ledger R × Option Error
  on_world (w, e) l = (record l { world = w }, e)

  module _ (p : Components R) (q : Commits R) (s : Storage) (c : Codec) (env : Settings) where
    -- the mini-blocks are stored until one cannot be marshalled
    unfoldable pub put_body : List MiniBlock → World R → World R × Option Error
    put_body [] w = (w, none)
    put_body (mb ∷ body) w = elim (mini_block_hash c mb) [
      | err e ↦ (w, some e)
      | ok hash ↦ put_body body (record w { rest = q.put_mini_block mb hash w.rest })
    ]

    unfoldable pub with_processed :
        ProcessedMiniBlocks × Option Error → World R → World R × Option Error
    with_processed (m, e) w = (record w { shard = record w.shard { processed_mini_blocks = m } }, e)

    unfoldable pub with_notarized : HeaderLists × Option Error → World R → World R × Option Error
    with_notarized (m, e) w = (record w { shard = record w.shard { notarized_hdrs = m } }, e)

    unfoldable pub with_db : AccountsDb × Option Error → World R → World R × Option Error
    with_db (db, e) w = (record w { db = db }, e)

    unfoldable pub commit_all : World R → World R × Option Error
    commit_all w =
        then_do (with_db (q.commit_accounts w.db) w) (λ w. with_rest (q.commit_peer_state w.rest) w)

    unfoldable pub remove_stored : Header → Bytes → R × Option Error → World R → World R
    remove_stored h hash (r, some e) w = record w { rest = r }
    remove_stored h hash (r, none) w = record w {
      rest = r;
      shard = record w.shard {
        pool = remove_from_pool hash h w.shard.pool;
        processed_mini_blocks = remove_all_processed_mini_blocks hash w.shard.processed_mini_blocks;
      };
    }

    -- a meta block that is behind the last notarized one goes to the storage
    unfoldable pub remove_meta_block : Header → Result Bytes → World R → World R
    remove_meta_block h (err e) w = w
    remove_meta_block h (ok hash) w = remove_stored h hash (q.put_meta_block h hash w.rest) w

    unfoldable pub remove_meta_blocks : ℕ → List Header → World R → World R
    remove_meta_blocks last [] w = w
    remove_meta_blocks last (h ∷ hs) w =
        remove_meta_blocks last hs
          (if ltb last h.nonce then w else remove_meta_block h (header_hash c h) w)

    unfoldable pub remove_processed_meta_blocks_from_pool :
        Result Header → List Header → World R → World R
    remove_processed_meta_blocks_from_pool (err e) metas w = w
    remove_processed_meta_blocks_from_pool (ok last) metas w = remove_meta_blocks last.nonce metas w

    unfoldable pub last_notarized_meta : World R → Result Header
    last_notarized_meta w =
        get_last_notarized_hdr env.number_of_shards metachain_shard_id w.shard.notarized_hdrs

    -- behind commitAll: the pools, the fork detector, and the notarized headers that are left
    unfoldable pub clean_up :
        Header → Bytes → List MiniBlock → List Header → List Header → World R → World R
    clean_up h hash body metas finals w =
        let cleared = record w { rest = q.remove_block_data_from_pool body w.rest } in
        let removed =
          remove_processed_meta_blocks_from_pool (last_notarized_meta cleared) metas cleared in
        let added = record removed {
          rest =
              q.add_header h hash finals (map (λ x. hash_or_nil (header_hash c x)) finals)
                (is_shard_stuck (q.round_index removed.rest) metachain_shard_id
                  removed.shard.last_hdrs)
                removed.rest;
        } in
        record added {
          shard = record added.shard {
            notarized_hdrs =
                remove_notarized_hdrs_behind_previous_final
                  (hdrs_to_attest_previous_final h.nonce
                    (q.get_highest_final_block_nonce added.rest))
                  added.shard.notarized_hdrs;
          };
        }

    unfoldable pub set_current : Header → Bytes → List MiniBlock → Ledger R → Ledger R
    set_current h hash body l = record l {
      chain = record l.chain { current_block_header = some h };
      current_block_body = some body;
      current_block_header_hash = hash;
    }

    unfoldable pub report_committed :
        Header → List Header → Result Header → Ledger R → Ledger R × Option Error
    report_committed h finals (err e) l = (l, some e)
    report_committed h finals (ok meta) l = (
      record l {
        world = record l.world {
          rest =
              q.report h finals (map (λ x. hash_or_nil (header_hash c x)) finals)
                l.world.shard.processed_mini_blocks l.world.rest;
        };
      },
      none,
    )

    unfoldable pub finish :
        Header
        → Bytes
        → List MiniBlock
        → List Header
        → List Header
        → Ledger R
        → Ledger R × Option Error
    finish h hash body metas finals l =
        let cleaned = record l { world = clean_up h hash body metas finals l.world } in
        report_committed h finals (last_notarized_meta cleaned.world)
          (set_current h hash body cleaned)

    -- with the meta blocks that the block completes
    unfoldable pub commit_metas :
        Header
        → Bytes
        → List MiniBlock
        → List Header
        → Result (List Header)
        → Ledger R
        → Ledger R × Option Error
    commit_metas h hash body metas (err e) l = (l, some e)
    commit_metas h hash body metas (ok finals) l =
        then_do
          (on_world
            (with_notarized
              (save_last_notarized_header c env.number_of_shards metachain_shard_id metas
                l.world.shard.notarized_hdrs)
              l.world)
            l)
          (λ l. then_do (on_world (commit_all l.world) l) (λ l. finish h hash body metas finals l))

    unfoldable pub commit_processed :
        Header → Bytes → List MiniBlock → Result (List Header) → Ledger R → Ledger R × Option Error
    commit_processed h hash body (err e) l = (l, some e)
    commit_processed h hash body (ok metas) l =
        then_do
          (on_world
            (with_processed
              (add_processed_cross_mini_blocks env.self_id l.world.shard.current
                (meta_block_hashes_of h.content)
                (mini_block_hashes (mini_block_headers_of h.content))
                l.world.shard.processed_mini_blocks)
              l.world)
            l)
          (λ l.
            commit_metas h hash body metas
              (get_highest_hdr_for_own_shard_from_metachain (q.get_shard_header l.world.rest)
                env.self_id metas)
              l)

    unfoldable pub commit_hashed :
        Header → List MiniBlock → Result Bytes → Ledger R → Ledger R × Option Error
    commit_hashed h body (err e) l = (l, some e)
    commit_hashed h body (ok hash) l =
        let stored = record l {
          world = record l.world { rest = q.put_header h hash l.world.rest };
        } in
        then_do
          (on_world (with_rest (q.save_block_data_to_storage body stored.world.rest) stored.world)
            stored)
          (λ l. then_do (on_world (put_body body l.world) l) (λ l.
            commit_processed h hash body
              (get_ordered_processed_meta_blocks_from_header env.self_id
                l.world.shard.processed_mini_blocks l.world.shard.current h)
              l))

    unfoldable pub commit_valid :
        Option Header → Option (List MiniBlock) → Ledger R → Ledger R × Option Error
    commit_valid (some h) (some body) l =
        if is_shard_content h.content
        then commit_hashed h body (header_hash c h) l
        else (l, some err_wrong_type_assertion)
    commit_valid h body l = (l, some err_nil_block_header)

    -- the deferred call
    unfoldable pub revert_if_failed : Ledger R × Option Error → Ledger R × Option Error
    revert_if_failed (l, none) = (l, none)
    revert_if_failed (l, some e) =
        (record l { world = revert_account_state p s c env l.world }, some e)

    unfoldable pub commit_block :
        Option Header → Option (List MiniBlock) → Ledger R → Ledger R × Option Error
    commit_block h body l =
        revert_if_failed
          (then_do (l, check_block_validity c (some l.chain) h body) (λ l. commit_valid h body l))
