-- ===== src/Blocks/Process.antt =====
-- shardblock.go: ProcessBlock. What the shard processor calls behind an interface of Go (the
-- transaction coordinator, the consensus data, the validator statistics) is a record of operations
-- on a state of its own.
use elrond_go.Prelude.{
  ℕ, Bool, true, false, not, Option, none, some, List, [], ◌∷◌, ltb, if◌then◌else◌,
}
use elrond_go.Prelude.Bytes.{Bytes, bytes_eq}
use elrond_go.Accounts.Types.{AccountsDb, Storage}
use elrond_go.Accounts.Store.{revert_to_snapshot, journal_len}
use elrond_go.Blocks.Types.{
  Error, err_nil_block_header, err_wrong_type_assertion, err_nil_have_time_handler, err_time_is_out,
  err_account_state_dirty, err_root_state_does_not_match,
  err_validator_stats_root_hash_does_not_match, Result, ok, err, MiniBlock, MiniBlockHeader,
  Content, shard_content, meta_content, Header, metachain_shard_id, is_shard_content, bytes_of,
  Codec,
}
use elrond_go.Blocks.Validity.{Chain, check_block_validity}
use elrond_go.Blocks.Notarized.{get_last_notarized_hdr}
use elrond_go.Blocks.Finality.{check_meta_headers_validity_and_finality}
use elrond_go.Blocks.Correlation.{check_header_body_correlation}
use elrond_go.Blocks.Current.{
  Shard, reset_missing_hdrs, create_block_started, request_meta_headers,
  sort_headers_for_current_block_by_nonce,
}
use elrond_go.Blocks.Arrivals.{have_missing, wait_for_meta_hdr_hashes}
use elrond_go.Blocks.CrossShard.{
  get_ordered_processed_meta_blocks_from_mini_blocks, meta_block_hashes_of,
  verify_cross_shard_mini_block_dst_me,
}

-- the accounts, what the shard processor has of its own, and the state of the other components
pub record World (R : Type 0) : Type 0 where
  pub db : AccountsDb
  pub shard : Shard
  pub rest : R

-- process.SpecialAddressHandler, process.TransactionCoordinator, process.BlockChainHookHandler, the
-- root of the accounts' trie, and process.ValidatorStatisticsProcessor
pub record Components (R : Type 0) : Type 0 where
  pub set_shard_consensus_data : Header → R → R × Option Error
  pub clear_meta_consensus_data : R → R
  pub set_meta_consensus_data : Header → R → R × Option Error
  pub coordinator_started : R → R
  pub set_current_header : Header → R → R
  pub request_block_transactions : List MiniBlock → R → R
  pub is_data_prepared_for_processing : R → R × Option Error
  pub process_block_transaction :
      List MiniBlock → ℕ → AccountsDb → R → AccountsDb × R × Option Error
  pub verify_created_block_transactions : List MiniBlock → R → R × Option Error
  pub root_hash : AccountsDb → Option Bytes
  pub update_peer_state : Header → R → R × Result Bytes
  pub peer_root_hash : R → Bytes
  pub revert_peer_state : R → R

pub record Settings : Type 0 where
  pub self_id : ℕ
  pub number_of_shards : ℕ
  pub meta_block_finality : ℕ
  pub allowed_size : ℕ

unfoldable pub mini_block_headers_of : Content → List MiniBlockHeader
mini_block_headers_of (shard_content i mbs metas) = mbs
mini_block_headers_of (meta_content info mbs) = mbs

-- the rest of a function behind `if err != nil { return err }`
unfoldable pub then_do {ℓ} :
    {S : Type ℓ} → S × Option Error → (S → S × Option Error) → S × Option Error
then_do (w, none) k = k w
then_do (w, some e) k = (w, some e)

module _ {R : Type 0} where
  unfoldable pub fail_if : Bool → Error → World R → World R × Option Error
  fail_if true e w = (w, some e)
  fail_if false e w = (w, none)

  unfoldable pub with_rest : R × Option Error → World R → World R × Option Error
  with_rest (r, e) w = (record w { rest = r }, e)

  unfoldable pub with_shard : Shard × Option Error → World R → World R × Option Error
  with_shard (s, e) w = (record w { shard = s }, e)

  unfoldable pub with_accounts : AccountsDb × R × Option Error → World R → World R × Option Error
  with_accounts (db, r, e) w = (record w { db = db; rest = r }, e)

  module _ (p : Components R) (s : Storage) (c : Codec) (env : Settings) where
    unfoldable pub revert_account_state : World R → World R
    revert_account_state w = record w {
      db = (revert_to_snapshot s 0 w.db).0;
      rest = p.revert_peer_state w.rest;
    }

    -- the deferred call
    unfoldable pub revert_on_error : World R × Option Error → World R × Option Error
    revert_on_error (w, none) = (w, none)
    revert_on_error (w, some e) = (revert_account_state w, some e)

    -- createBlockStarted, SetCurrentHeader, RequestBlockTransactions and requestMetaHeaders
    unfoldable pub start_block : Header → List MiniBlock → World R → World R
    start_block h body w = record w {
      shard = record w.shard {
        current =
            request_meta_headers w.shard.pool env.meta_block_finality
              (meta_block_hashes_of h.content) (create_block_started w.shard.current);
      };
      rest =
          p.request_block_transactions body (p.set_current_header h (p.coordinator_started w.rest));
    }

    unfoldable pub reset_after_wait : Shard × Option Error → Shard × Option Error
    reset_after_wait (sh, e) = (record sh { current = reset_missing_hdrs sh.current }, e)

    -- the wait for the headers that are missing, over those that arrive in time
    unfoldable pub wait_if_missing : List (Bytes × Header) → World R → World R × Option Error
    wait_if_missing arrivals w =
        if have_missing w.shard.current
        then with_shard
            (reset_after_wait (
              wait_for_meta_hdr_hashes env.number_of_shards env.allowed_size env.meta_block_finality
                arrivals w.shard))
            w
        else (w, none)

    unfoldable pub check_meta_headers : World R → World R × Option Error
    check_meta_headers w = (
      w,
      check_meta_headers_validity_and_finality c env.meta_block_finality
          (sort_headers_for_current_block_by_nonce true metachain_shard_id w.shard.current)
          (sort_headers_for_current_block_by_nonce false metachain_shard_id w.shard.current)
          (get_last_notarized_hdr env.number_of_shards metachain_shard_id w.shard.notarized_hdrs),
    )

    unfoldable pub check_cross_shard : Header → World R → World R × Option Error
    check_cross_shard h w = (
      w,
      verify_cross_shard_mini_block_dst_me env.self_id w.shard.current h
          (get_last_notarized_hdr env.number_of_shards metachain_shard_id w.shard.notarized_hdrs),
    )

    -- up to the check that the journal is empty
    unfoldable pub prepare :
        Header → List MiniBlock → Bool → List (Bytes × Header) → World R → World R × Option Error
    prepare h body time_is_out arrivals w =
        then_do (fail_if (not (is_shard_content h.content)) err_wrong_type_assertion w) (λ w.
          then_do (w, check_header_body_correlation c (mini_block_headers_of h.content) body)
            (λ w. then_do (with_rest (p.set_shard_consensus_data h w.rest) w) (λ w.
              then_do (fail_if time_is_out err_time_is_out (start_block h body w)) (λ w.
                then_do (with_rest (p.is_data_prepared_for_processing w.rest) w)
                  (λ w. wait_if_missing arrivals w)))))

    -- from there to the deferred revert
    unfoldable pub check_ready : Header → World R → World R × Option Error
    check_ready h w =
        then_do (fail_if (ltb 0 (journal_len w.db)) err_account_state_dirty w)
          (λ w. then_do (check_meta_headers w) (λ w. check_cross_shard h w))

    unfoldable pub set_each : List Header → World R → World R × Option Error
    set_each [] w = (w, none)
    set_each (m ∷ ms) w =
        then_do (with_rest (p.set_meta_consensus_data m w.rest) w) (λ w'. set_each ms w')

    unfoldable pub set_meta_consensus : List Header → World R → World R × Option Error
    set_meta_consensus metas w =
        set_each metas (record w { rest = p.clear_meta_consensus_data w.rest })

    unfoldable pub verify_state_root : Header → World R → World R × Option Error
    verify_state_root h w =
        fail_if (not (bytes_eq (bytes_of (p.root_hash w.db)) (bytes_of h.root_hash)))
          err_root_state_does_not_match w

    unfoldable pub same_peer_root : Header → R × Result Bytes → World R → World R × Option Error
    same_peer_root m (r, err e) w = (record w { rest = r }, some e)
    same_peer_root m (r, ok root) w =
        fail_if (not (bytes_eq root m.validator_stats_root_hash))
          err_validator_stats_root_hash_does_not_match (record w { rest = r })

    unfoldable pub update_each_peer_state : List Header → World R → World R × Option Error
    update_each_peer_state [] w = (w, none)
    update_each_peer_state (m ∷ ms) w =
        then_do (same_peer_root m (p.update_peer_state m w.rest) w)
          (λ w'. update_each_peer_state ms w')

    unfoldable pub check_validator_statistics_root_hash :
        Header → List Header → World R → World R × Option Error
    check_validator_statistics_root_hash h metas w = then_do (update_each_peer_state metas w) (λ w'.
        fail_if (not (bytes_eq (p.peer_root_hash w'.rest) h.validator_stats_root_hash))
          err_validator_stats_root_hash_does_not_match w')

    unfoldable pub run_transactions : List MiniBlock → ℕ → World R → World R × Option Error
    run_transactions body round w =
        with_accounts (p.process_block_transaction body round w.db w.rest) w

    unfoldable pub check_outcome :
        Header → List MiniBlock → List Header → World R → World R × Option Error
    check_outcome h body metas w =
        then_do (with_rest (p.verify_created_block_transactions body w.rest) w) (λ w.
          then_do (verify_state_root h w) (λ w. check_validator_statistics_root_hash h metas w))

    unfoldable pub execute_with :
        Header → List MiniBlock → Result (List Header) → World R → World R × Option Error
    execute_with h body (err e) w = (w, some e)
    execute_with h body (ok metas) w =
        then_do (set_meta_consensus metas w)
          (λ w. then_do (run_transactions body h.round w) (λ w. check_outcome h body metas w))

    unfoldable pub execute : Header → List MiniBlock → World R → World R × Option Error
    execute h body w =
        execute_with h body
          (get_ordered_processed_meta_blocks_from_mini_blocks c env.self_id
            w.shard.processed_mini_blocks w.shard.current body)
          w

    -- on a header and a body that are there
    unfoldable pub process_valid :
        Option Header
        → Option (List MiniBlock)
        → Bool
        → List (Bytes × Header)
        → World R
        → World R × Option Error
    process_valid (some h) (some body) time_is_out arrivals w =
        then_do (prepare h body time_is_out arrivals w)
          (λ w. then_do (check_ready h w) (λ w. revert_on_error (execute h body w)))
    process_valid h body time_is_out arrivals w = (w, some err_nil_block_header)

    -- `have_time` is nil, or tells whether the time is out
    unfoldable pub process_block :
        Option Chain
        → Option Header
        → Option (List MiniBlock)
        → Option Bool
        → List (Bytes × Header)
        → World R
        → World R × Option Error
    process_block ch h body none arrivals w = (w, some err_nil_have_time_handler)
    process_block ch h body (some time_is_out) arrivals w =
        then_do (w, check_block_validity c ch h body)
          (λ w. process_valid h body time_is_out arrivals w)
