-- ===== src/Sync/ForkDetector/Tests.antt =====
-- A fork detector that sees a few headers: the theorems at these inputs, and tests.
use elrond_go.Prelude.{
  ℕ, ◌+◌, ◌≤◌, ◌≡◌, ◌⊎◌, ◌↔◌, refl, Bool, true, false, none, some, List, [], ◌∷◌, arith,
  if◌then◌else◌,
}
use elrond_go.Prelude.Int.{pos, to_int64, sub_int64, wrap_int64, ◌+ℤ◌, ◌-ℤ◌}
use elrond_go.Prelude.Bytes.{Bytes, bytes_eq, bytes_lt}
use elrond_go.Prelude.Maps.{All, Any, keep, lookup, insert, delete, update_each}
use elrond_go.Sync.ForkDetector.Types.{
  received, processed, state_eq, Header, ForkDetector, Rounder, BlackListHandler,
}
use elrond_go.Sync.ForkDetector.Store.{
  bucket, remove_past_or_invalid_records, append_header, last_checkpoint, last_of,
  set_is_notarized_shard_stuck, is_stored, add_checkpoint, is_received_header_invalid,
  compute_probable_highest_nonce, max_nonce, non_empty,
}
use elrond_go.Sync.ForkDetector.Validity.{
  check_position, check_block_basic_validity, is_signed, is_zero, is_header_received_too_late,
  compute_genesis_time_from_header, activate_forced_fork_if_needed,
}
use elrond_go.Sync.ForkDetector.AddHeader.{
  new_fork_detector, info_of, add_final_headers, effective_state, store_header, checkpoint_of,
  on_processed_shard, accept_shard, accept_meta, add_header_shard, add_header_meta, to_uint64,
}
use elrond_go.Sync.ForkDetector.Check.{
  max_uint64, scan_start, scan_step, scan, signals, is_single, check_fork, compute_fork_info,
  should_signal_fork, check_nonces, check_nonce, current_fork_round, new_fork_info,
}
use elrond_go.Sync.ForkDetector.Acceptance.{IsAcceptable, check_position_iff, check_position-nonce}
use elrond_go.Sync.ForkDetector.Steps.{shard, meta, Call, add_header, add_header_of, run, step}
use elrond_go.Sync.ForkDetector.Consistent.{IsConsistent}
use elrond_go.Sync.ForkDetector.Reachable.{new-run-IsConsistent}
use elrond_go.Sync.ForkDetector.Finality.{final-add_header_of}
use elrond_go.Sync.ForkDetector.Highest.{IsUpToDate, add_header_of-IsUpToDate}
use elrond_go.Sync.ForkDetector.Contents.{append_header-append_header}
use elrond_go.Sync.ForkDetector.Choice.{IsBest, scan_start-IsBest, shows_fork}
use elrond_go.Sync.ForkDetector.Report.{nonce-check_fork_le}

is_in : Bytes → List Bytes → Bool
is_in h [] = false
is_in h (x ∷ xs) = let rest = is_in h xs in if bytes_eq x h then true else rest

-- a black list that never forgets
abbrev black_list : BlackListHandler (List Bytes)
black_list = record { sweep = λ b. b; has = λ b h. is_in h b; add = λ b h. h ∷ b }

abbrev rounder : Rounder
rounder = record { index = pos 3; seconds = 5 }

abbrev header_at : ℕ → ℕ → Header
header_at nonce round = record {
  nonce = nonce;
  round = round;
  time_stamp = round + round + round + round + round;
  prev_hash = 7 ∷ [];
  pub_keys_bitmap = 1 ∷ [];
  prev_rand_seed = 2 ∷ [];
  rand_seed = 3 ∷ [];
}

abbrev start : ForkDetector
start = new_fork_detector (pos 0)

-- the node has processed one block, and received another of the same nonce from an earlier round
abbrev calls : List Call
calls =
    add_header rounder (some (header_at 1 3)) (some (9 ∷ [])) processed [] false
    ∷ add_header rounder (some (header_at 1 2)) (some (8 ∷ [])) received [] false
    ∷ []

forked : ForkDetector
unfolding run step add_header_of add_header_shard add_header_meta check_block_basic_validity
    check_position compute_genesis_time_from_header is_in is_signed is_zero accept_shard accept_meta
    on_processed_shard add_final_headers checkpoint_of store_header effective_state
    is_header_received_too_late append_header activate_forced_fork_if_needed new_fork_detector
    check_fork check_nonces check_nonce scan scan_step scan_start signals is_single
    compute_fork_info should_signal_fork to_int64 sub_int64 wrap_int64 ◌+ℤ◌ ◌-ℤ◌ to_uint64 info_of
    bucket lookup insert delete update_each keep bytes_eq bytes_lt set_is_notarized_shard_stuck
    is_stored state_eq remove_past_or_invalid_records add_checkpoint is_received_header_invalid
    last_checkpoint last_of compute_probable_highest_nonce max_nonce non_empty current_fork_round
    new_fork_info
forked = (run black_list shard calls (start, [])).0

-- the earlier block wins: the node is on a fork
forked_is_detected : (check_fork forked).is_detected ≡ true
unfolding forked
forked_is_detected = refl

-- the probable highest nonce is that of the two blocks
forked_highest : forked.probable_highest_nonce ≡ 1
unfolding forked
forked_highest = refl

new-run-IsConsistent_example :
    IsConsistent (run black_list shard calls (new_fork_detector (pos 0), [])).0
new-run-IsConsistent_example = new-run-IsConsistent black_list shard calls (pos 0) []

start-IsConsistent : IsConsistent (run black_list shard [] (start, [])).0
start-IsConsistent = new-run-IsConsistent black_list shard [] (pos 0) []

check_position_iff_example :
    (check_position rounder start.final_checkpoint (header_at 1 3) processed ≡ none)
    ↔ IsAcceptable 3 start.final_checkpoint (header_at 1 3) processed
check_position_iff_example =
    check_position_iff 3 5 start.final_checkpoint (header_at 1 3) processed
      (unfold new_fork_detector in omega arith)

accepted : check_position rounder start.final_checkpoint (header_at 1 3) processed ≡ none
unfolding forked
accepted = refl

check_position-nonce_example : start.final_checkpoint.nonce ≤ 1
check_position-nonce_example =
    check_position-nonce rounder start.final_checkpoint (header_at 1 3) processed (omega arith)
      (unfold new_fork_detector in omega arith) accepted

final-add_header_of_example :
    start.final_checkpoint.nonce
    ≤ (add_header_of black_list meta rounder
        (some (header_at 1 3))
        (some (9 ∷ []))
        processed
        []
        false
        start
        []).1.final_checkpoint.nonce
final-add_header_of_example =
    final-add_header_of black_list meta rounder (some (header_at 1 3)) (some (9 ∷ [])) processed []
      false start [] (unfold run in start-IsConsistent) (λ e. unfold new_fork_detector in λ x. cc)

add_header_of-IsUpToDate_example :
    IsUpToDate
      (add_header_of black_list shard rounder
        (some (header_at 1 3))
        (some (9 ∷ []))
        processed
        []
        false
        start
        []).1
add_header_of-IsUpToDate_example =
    add_header_of-IsUpToDate black_list shard rounder (some (header_at 1 3)) (some (9 ∷ []))
      processed [] false start [] (unfold forked in refl)

append_header-append_header_example :
    append_header
      (info_of (header_at 1 2) (8 ∷ []) received)
      (append_header (info_of (header_at 1 2) (8 ∷ []) received) forked)
    ≡ append_header (info_of (header_at 1 2) (8 ∷ []) received) forked
append_header-append_header_example =
    append_header-append_header (info_of (header_at 1 2) (8 ∷ []) received) forked

scan_start-IsBest_example :
    IsBest scan_start (bucket forked.headers 1) (scan (bucket forked.headers 1) scan_start)
scan_start-IsBest_example = scan_start-IsBest (bucket forked.headers 1)

not_forced : forked.should_force_fork ≡ false
unfolding forked
not_forced = refl

nonce-check_fork_le_example :
    All (λ e. shows_fork e.1 ≡ true → (check_fork forked).nonce ≤ e.0) forked.headers
    × (((check_fork forked).nonce ≡ max_uint64)
        ⊎ Any
            (λ e.
              (shows_fork e.1 ≡ true)
              × ((check_fork forked).nonce ≡ e.0)
              × ((check_fork forked).hash ≡ (scan e.1 scan_start).hash))
            forked.headers)
nonce-check_fork_le_example = nonce-check_fork_le forked not_forced
