-- ===== src/Sync/ForkDetector/Validity.antt =====
-- The checks on a header before it is stored: checkBlockBasicValidity and isHeaderReceivedTooLate of
-- baseForkDetector.go, isSigned and isRandomSeedValid of baseSync.go, AddHeaderToBlackList and
-- IsInProperRound of process/common.go.
use elrond_go.Prelude.{
  suc, ◌+◌, ◌-◌, ◌*◌, ◌%◌, Bool, true, false, not, ◌&&◌, ◌||◌, Option, none, some, [], ◌∷◌, ◌==◌,
  if◌then◌else◌,
}
use elrond_go.Prelude.Int.{
  ℤ, pos, negsuc, ◌+ℤ◌, ltb_ℤ, eqb_ℤ, to_int64, sub_int64, wrap_int64, two64,
}
use elrond_go.Prelude.Bytes.{Bytes}
use elrond_go.Sync.ForkDetector.Types.{
  BlockHeaderState, received, processed, proposed, state_eq, Header, CheckpointInfo, ForkDetector,
  Rounder, BlackListHandler, Err, header_is_black_listed, genesis_time_missmatch,
  lower_round_in_block, lower_nonce_in_block, higher_round_in_block, higher_nonce_in_block,
  random_seed_not_valid, block_is_not_signed,
}
use elrond_go.Sync.ForkDetector.Store.{last_checkpoint, set_should_force_fork}

-- bytes.Equal(bitmap, make([]byte, len(bitmap)))
unfoldable pub is_zero : Bytes → Bool
is_zero [] = true
is_zero (b ∷ bs) = let rest = is_zero bs in if b == 0 then rest else false

unfoldable pub is_signed : Header → Bool
is_signed h = not (is_zero h.pub_keys_bitmap)

unfoldable pub is_empty : Bytes → Bool
is_empty [] = true
is_empty (b ∷ bs) = false

unfoldable pub is_random_seed_valid : Header → Bool
unfolding is_empty
is_random_seed_valid h = not (is_empty h.prev_rand_seed) && not (is_empty h.rand_seed)

-- int64(timestamp - round*uint64(seconds)), in uint64 arithmetic
unfoldable pub compute_genesis_time_from_header : Rounder → Header → ℤ
compute_genesis_time_from_header r h =
    to_int64 ((h.time_stamp + two64 - (h.round * r.seconds) % two64) % two64)

-- index % RoundModulusTrigger == 0; Go's remainder has the sign of the dividend
unfoldable pub is_in_proper_round : ℤ → Bool
is_in_proper_round (pos n) = n % 10 == 0
is_in_proper_round (negsuc n) = suc n % 10 == 0

-- the checks in their order, after the black list's; `final` is the final checkpoint
unfoldable pub check_position : Rounder → CheckpointInfo → Header → BlockHeaderState → Option Err
unfolding state_eq
check_position r final h state =
    let round_dif = sub_int64 (to_int64 h.round) (to_int64 final.round) in
    let nonce_dif = sub_int64 (to_int64 h.nonce) (to_int64 final.nonce) in
    let next_round = wrap_int64 (r.index +ℤ pos 1) in
    if ltb_ℤ round_dif (pos 0)
    then some lower_round_in_block
    else if ltb_ℤ nonce_dif (pos 0)
    then some lower_nonce_in_block
    else if ltb_ℤ next_round (to_int64 h.round)
    then some higher_round_in_block
    else if ltb_ℤ round_dif nonce_dif
    then some higher_nonce_in_block
    else if state_eq state proposed && not (is_random_seed_valid h)
    then some random_seed_not_valid
    else if (state_eq state received || state_eq state processed) && not (is_signed h)
    then some block_is_not_signed
    else none

module _ {B : Type 0} (handler : BlackListHandler B) where
  unfoldable pub add_header_to_black_list : Bytes → B → B
  add_header_to_black_list hash b = handler.add (handler.sweep b) hash

  -- the result, and the black list after it
  unfoldable pub check_block_basic_validity :
      Rounder → ForkDetector → Header → Bytes → BlockHeaderState → B → Option Err × B
  unfolding add_header_to_black_list
  check_block_basic_validity r d h hash state b =
      let swept = handler.sweep b in
      if handler.has swept h.prev_hash
      then (some header_is_black_listed, add_header_to_black_list hash swept)
      else if not (eqb_ℤ (compute_genesis_time_from_header r h) d.genesis_time)
      then (some genesis_time_missmatch, add_header_to_black_list hash swept)
      else (check_position r d.final_checkpoint h state, swept)

unfoldable pub is_header_received_too_late : Rounder → Header → BlockHeaderState → ℤ → Bool
unfolding state_eq
is_header_received_too_late r h state finality =
    if state_eq state processed
    then false
    else ltb_ℤ (to_int64 h.round) (sub_int64 r.index finality)

unfoldable pub is_syncing : ForkDetector → Bool
unfolding last_checkpoint
is_syncing d =
    ltb_ℤ (pos 0)
      (sub_int64 (to_int64 d.probable_highest_nonce) (to_int64 (last_checkpoint d).nonce))

unfoldable pub activate_forced_fork_on_consensus_stuck_if_needed :
    Rounder → Header → BlockHeaderState → ForkDetector → ForkDetector
unfolding state_eq is_syncing set_should_force_fork
activate_forced_fork_on_consensus_stuck_if_needed r h state d =
    let rounds = sub_int64 (to_int64 h.round) (to_int64 (last_checkpoint d).round) in
    let nonces = sub_int64 (to_int64 h.nonce) (to_int64 (last_checkpoint d).nonce) in
    if not (state_eq state proposed) || is_syncing d
    then d
    else if ltb_ℤ (pos 20) rounds && ltb_ℤ nonces (pos 2) && is_in_proper_round r.index
    then set_should_force_fork true d
    else d

unfoldable pub activate_forced_fork_on_cross_notarized_stuck_if_needed :
    Rounder → Header → BlockHeaderState → ForkDetector → ForkDetector
unfolding state_eq is_syncing set_should_force_fork
activate_forced_fork_on_cross_notarized_stuck_if_needed r h state d =
    let nonces = sub_int64 (to_int64 h.nonce) (to_int64 (last_checkpoint d).nonce) in
    let without = sub_int64 (to_int64 h.nonce) (to_int64 d.final_checkpoint.nonce) in
    if not (state_eq state proposed) || is_syncing d
    then d
    else if ltb_ℤ (pos 100) without
        && ltb_ℤ nonces (pos 2)
        && is_in_proper_round r.index
        && not d.is_notarized_shard_stuck
    then set_should_force_fork true d
    else d

unfoldable pub activate_forced_fork_if_needed :
    Rounder → Header → BlockHeaderState → ForkDetector → ForkDetector
unfolding activate_forced_fork_on_consensus_stuck_if_needed
    activate_forced_fork_on_cross_notarized_stuck_if_needed
activate_forced_fork_if_needed r h state d =
    activate_forced_fork_on_cross_notarized_stuck_if_needed r h state
      (activate_forced_fork_on_consensus_stuck_if_needed r h state d)
