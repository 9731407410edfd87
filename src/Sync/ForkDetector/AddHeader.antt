-- ===== src/Sync/ForkDetector/AddHeader.antt =====
-- AddHeader of shardForkDetector.go and of metaForkDetector.go, and the two constructors.
use elrond_go.Prelude.{ℕ, Bool, true, false, Option, none, some, List, [], ◌∷◌, leb, if◌then◌else◌}
use elrond_go.Prelude.Int.{ℤ, pos, negsuc, two64}
use Prim.Native.Nat.{suc, ◌-◌, ◌%◌}
use elrond_go.Prelude.Bytes.{Bytes}
use elrond_go.Sync.ForkDetector.Types.{
  BlockHeaderState, received_too_late, processed, notarized, state_eq, Header, HeaderInfo, genesis,
  ForkDetector, Rounder, BlackListHandler, Err, nil_header, nil_hash,
}
use elrond_go.Sync.ForkDetector.Store.{
  set_final_checkpoint, add_checkpoint, last_checkpoint, set_probable_highest_nonce,
  set_last_block_round, set_is_notarized_shard_stuck, remove_past_or_invalid_records, append_header,
  compute_probable_highest_nonce,
}
use elrond_go.Sync.ForkDetector.Validity.{
  check_block_basic_validity, is_header_received_too_late,
  activate_forced_fork_on_consensus_stuck_if_needed, activate_forced_fork_if_needed,
}

-- NewShardForkDetector and NewMetaForkDetector, given a rounder and a black list that are not nil
unfoldable pub new_fork_detector : ℤ → ForkDetector
new_fork_detector genesis_time = record {
  headers = [];
  fork = record {
    checkpoint = genesis ∷ [];
    final_checkpoint = genesis;
    probable_highest_nonce = 0;
    last_block_round = 0;
    last_proposed_block_nonce = 0;
    should_force_fork = false;
    is_notarized_shard_stuck = false;
  };
  genesis_time = genesis_time;
}

-- uint64(index)
unfoldable pub to_uint64 : ℤ → ℕ
to_uint64 (pos n) = n % two64
to_uint64 (negsuc n) = (two64 - suc n % two64) % two64

unfoldable pub info_of : Header → Bytes → BlockHeaderState → HeaderInfo
info_of h hash state = record { nonce = h.nonce; round = h.round; hash = hash; state = state }

-- one round of the loop of addFinalHeaders; the flag says that the final checkpoint was set
unfoldable pub add_final_header : Header → Bytes → Bool × ForkDetector → Bool × ForkDetector
unfolding info_of set_final_checkpoint
add_final_header h hash (was_set, d) =
    if leb d.final_checkpoint.nonce h.nonce
    then (
      true,
      append_header (info_of h hash notarized) (
          if was_set
          then d
          else set_final_checkpoint (record { nonce = h.nonce; round = h.round }) d),
    )
    else (was_set, d)

-- `finalHeaders` and `finalHeadersHashes` are walked by one index: a list of pairs
unfoldable pub add_final_headers_from :
    List (Header × Bytes) → Bool × ForkDetector → Bool × ForkDetector
add_final_headers_from [] s = s
add_final_headers_from ((h, hash) ∷ rest) s =
    add_final_headers_from rest (add_final_header h hash s)

unfoldable pub add_final_headers : List (Header × Bytes) → ForkDetector → ForkDetector
unfolding add_final_headers_from
add_final_headers finals d = (add_final_headers_from finals (false, d)).1

-- the state under which a late header is stored
unfoldable pub effective_state : Rounder → Header → BlockHeaderState → BlockHeaderState
effective_state r h state =
    if is_header_received_too_late r h state (pos 1) then received_too_late else state

-- what both methods do last
unfoldable pub store_header :
    Rounder → Header → Bytes → BlockHeaderState → ForkDetector → ForkDetector
unfolding set_last_block_round set_probable_highest_nonce info_of
store_header r h hash state d =
    let d' = append_header (info_of h hash state) d in
    set_probable_highest_nonce (compute_probable_highest_nonce d')
      (set_last_block_round (to_uint64 r.index) d')

unfoldable pub checkpoint_of : Header → ForkDetector → ForkDetector
checkpoint_of h = add_checkpoint (record { nonce = h.nonce; round = h.round })

-- the processed branch of each method
unfoldable pub on_processed_shard :
    Header → List (Header × Bytes) → Bool → ForkDetector → ForkDetector
on_processed_shard h final_headers stuck d =
    set_is_notarized_shard_stuck stuck
      (remove_past_or_invalid_records (checkpoint_of h (add_final_headers final_headers d)))

unfoldable pub on_processed_meta : Header → Bool → ForkDetector → ForkDetector
on_processed_meta h stuck d =
    set_is_notarized_shard_stuck stuck (
      remove_past_or_invalid_records (checkpoint_of h (set_final_checkpoint (last_checkpoint d) d)))

-- the detector after a header that passed the checks
unfoldable pub accept_shard :
    Rounder
    → Header
    → Bytes
    → BlockHeaderState
    → List (Header × Bytes)
    → Bool
    → ForkDetector
    → ForkDetector
unfolding state_eq
accept_shard r h hash state final_headers stuck d =
    let d' = activate_forced_fork_if_needed r h state d in
    let state' = effective_state r h state in
    store_header r h hash state'
      (if state_eq state' processed then on_processed_shard h final_headers stuck d' else d')

unfoldable pub accept_meta :
    Rounder → Header → Bytes → BlockHeaderState → Bool → ForkDetector → ForkDetector
unfolding state_eq
accept_meta r h hash state stuck d =
    let d' = activate_forced_fork_on_consensus_stuck_if_needed r h state d in
    let state' = effective_state r h state in
    store_header r h hash state'
      (if state_eq state' processed then on_processed_meta h stuck d' else d')

-- an error, or the new detector; in both cases the black list is returned
abbrev pub after_check :
    {B : Type 0}
    → (ForkDetector → ForkDetector)
    → ForkDetector
    → Option Err × B
    → Option Err × ForkDetector × B
after_check accept d (none, b) = (none, accept d, b)
after_check accept d (some e, b) = (some e, d, b)

module _ {B : Type 0} (handler : BlackListHandler B) where
  -- AddHeader of the shard's fork detector; `none` stands for a nil header or a nil hash
  unfoldable pub add_header_shard :
      Rounder
      → Option Header
      → Option Bytes
      → BlockHeaderState
      → List (Header × Bytes)
      → Bool
      → ForkDetector
      → B
      → Option Err × ForkDetector × B
  add_header_shard r none hash state final_headers stuck d b = (some nil_header, d, b)
  add_header_shard r (some h) none state final_headers stuck d b = (some nil_hash, d, b)
  add_header_shard r (some h) (some hash) state final_headers stuck d b =
      after_check (accept_shard r h hash state final_headers stuck) d
        (check_block_basic_validity handler r d h hash state b)

  -- AddHeader of the metachain's; the final headers that it is given are not used
  unfoldable pub add_header_meta :
      Rounder
      → Option Header
      → Option Bytes
      → BlockHeaderState
      → List (Header × Bytes)
      → Bool
      → ForkDetector
      → B
      → Option Err × ForkDetector × B
  add_header_meta r none hash state final_headers stuck d b = (some nil_header, d, b)
  add_header_meta r (some h) none state final_headers stuck d b = (some nil_hash, d, b)
  add_header_meta r (some h) (some hash) state final_headers stuck d b =
      after_check (accept_meta r h hash state stuck) d
        (check_block_basic_validity handler r d h hash state b)
