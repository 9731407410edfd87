-- ===== src/Sync/ForkDetector/Store.antt =====
-- baseForkDetector.go: the map of headers, the checkpoints, and the loops that clean them.
use elrond_go.Prelude.{
  ℕ, Bool, true, false, not, ◌&&◌, ◌||◌, Option, none, some, List, [], ◌∷◌, ◌++◌, ltb, leb, ◌==◌,
  if◌then◌else◌,
}
use elrond_go.Prelude.Int.{ltb_ℤ, to_int64, sub_int64}
use elrond_go.Prelude.Bytes.{Bytes, bytes_eq}
use elrond_go.Prelude.Maps.{keep, lookup, insert, delete, update_each}
use elrond_go.Sync.ForkDetector.Types.{
  received, received_too_late, proposed, notarized, state_eq, HeaderInfo, CheckpointInfo, genesis,
  HeaderMap, ForkDetector,
}

-- the bucket of a nonce; a missing key reads as the nil slice
unfoldable pub bucket : HeaderMap → ℕ → List HeaderInfo
bucket m nonce = elim (lookup nonce m) [ none ↦ [] | some infos ↦ infos ]

-- the value that a rebuilt slice leaves in the map: nothing where it is nil
unfoldable pub non_empty : List HeaderInfo → Option (List HeaderInfo)
non_empty [] = none
non_empty (h ∷ hs) = some (h ∷ hs)

unfoldable pub set_final_checkpoint : CheckpointInfo → ForkDetector → ForkDetector
set_final_checkpoint c d = record d { fork = record d.fork { final_checkpoint = c } }

unfoldable pub restore_final_checkpoint_to_genesis : ForkDetector → ForkDetector
restore_final_checkpoint_to_genesis d = record d {
  fork = record d.fork { final_checkpoint = genesis };
}

unfoldable pub add_checkpoint : CheckpointInfo → ForkDetector → ForkDetector
add_checkpoint c d = record d { fork = record d.fork { checkpoint = d.checkpoint ++ c ∷ [] } }

unfoldable pub last_of : List CheckpointInfo → CheckpointInfo
last_of [] = genesis
last_of (c ∷ []) = c
last_of (c ∷ d ∷ cs) = last_of (d ∷ cs)

unfoldable pub last_checkpoint : ForkDetector → CheckpointInfo
last_checkpoint d = last_of d.checkpoint

unfoldable pub set_probable_highest_nonce : ℕ → ForkDetector → ForkDetector
set_probable_highest_nonce n d = record d { fork = record d.fork { probable_highest_nonce = n } }

unfoldable pub set_last_block_round : ℕ → ForkDetector → ForkDetector
set_last_block_round n d = record d { fork = record d.fork { last_block_round = n } }

unfoldable pub set_last_proposed_block_nonce : ℕ → ForkDetector → ForkDetector
set_last_proposed_block_nonce n d = record d {
  fork = record d.fork { last_proposed_block_nonce = n };
}

unfoldable pub set_should_force_fork : Bool → ForkDetector → ForkDetector
set_should_force_fork b d = record d { fork = record d.fork { should_force_fork = b } }

unfoldable pub set_is_notarized_shard_stuck : Bool → ForkDetector → ForkDetector
set_is_notarized_shard_stuck b d = record d {
  fork = record d.fork { is_notarized_shard_stuck = b };
}

unfoldable pub past_entry : ℕ → ℕ → List HeaderInfo → Option (List HeaderInfo)
past_entry final nonce infos = if ltb nonce final then none else some infos

unfoldable pub remove_past_headers : ForkDetector → ForkDetector
unfolding past_entry
remove_past_headers d = record d {
  headers = update_each (past_entry d.final_checkpoint.nonce) d.headers;
}

-- the loop's test on one header: it was only received, and lies further in nonces than in rounds
unfoldable pub is_received_header_invalid : CheckpointInfo → HeaderInfo → Bool
unfolding state_eq
is_received_header_invalid final h =
    let round_dif = sub_int64 (to_int64 h.round) (to_int64 final.round) in
    let nonce_dif = sub_int64 (to_int64 h.nonce) (to_int64 final.nonce) in
    (state_eq h.state received || state_eq h.state received_too_late) && ltb_ℤ round_dif nonce_dif

unfoldable pub valid_entry : CheckpointInfo → ℕ → List HeaderInfo → Option (List HeaderInfo)
unfolding keep non_empty
valid_entry final nonce infos =
    non_empty (keep (λ h. not (is_received_header_invalid final h)) infos)

unfoldable pub remove_invalid_received_headers : ForkDetector → ForkDetector
unfolding valid_entry
remove_invalid_received_headers d = record d {
  headers = update_each (valid_entry d.final_checkpoint) d.headers;
}

unfoldable pub remove_checkpoints_behind_nonce : ℕ → ForkDetector → ForkDetector
remove_checkpoints_behind_nonce nonce d = record d {
  fork = record d.fork { checkpoint = keep (λ c. not (ltb c.nonce nonce)) d.checkpoint };
}

unfoldable pub remove_past_checkpoints : ForkDetector → ForkDetector
unfolding remove_checkpoints_behind_nonce
remove_past_checkpoints d = remove_checkpoints_behind_nonce d.final_checkpoint.nonce d

unfoldable pub remove_past_or_invalid_records : ForkDetector → ForkDetector
unfolding remove_past_headers remove_invalid_received_headers remove_past_checkpoints
remove_past_or_invalid_records d =
    remove_past_checkpoints (remove_invalid_received_headers (remove_past_headers d))

unfoldable pub remove_checkpoint_with_nonce : ℕ → ForkDetector → ForkDetector
remove_checkpoint_with_nonce nonce d = record d {
  fork = record d.fork { checkpoint = keep (λ c. not (c.nonce == nonce)) d.checkpoint };
}

-- the headers of a bucket that a clean-up preserves
unfoldable pub notarized_only : List HeaderInfo → List HeaderInfo
unfolding state_eq
notarized_only = keep (λ h. state_eq h.state notarized)

unfoldable pub put_bucket : ℕ → Option (List HeaderInfo) → HeaderMap → HeaderMap
put_bucket nonce none m = delete nonce m
put_bucket nonce (some infos) m = insert nonce infos m

-- RemoveHeaders; the Go method takes a hash too, and does not use it
unfoldable pub remove_headers : ℕ → ForkDetector → ForkDetector
unfolding remove_checkpoint_with_nonce put_bucket
remove_headers nonce d =
    let d' = remove_checkpoint_with_nonce nonce d in
    record d' {
      headers = put_bucket nonce (non_empty (notarized_only (bucket d'.headers nonce))) d'.headers;
    }

unfoldable pub higher_entry : ℕ → ℕ → List HeaderInfo → Option (List HeaderInfo)
unfolding non_empty
higher_entry bound nonce infos =
    if leb nonce bound then some infos else non_empty (notarized_only infos)

unfoldable pub cleanup_received_headers_higher_than_nonce : ℕ → ForkDetector → ForkDetector
unfolding higher_entry
cleanup_received_headers_higher_than_nonce nonce d = record d {
  headers = update_each (higher_entry nonce) d.headers;
}

-- a header with this hash and this state is in the slice
unfoldable pub is_stored : HeaderInfo → List HeaderInfo → Bool
is_stored h [] = false
is_stored h (stored ∷ rest) =
    let later = is_stored h rest in
    if bytes_eq stored.hash h.hash && state_eq stored.state h.state then true else later

-- the method `append`
unfoldable pub append_header : HeaderInfo → ForkDetector → ForkDetector
append_header h d =
    if state_eq h.state proposed
    then set_last_proposed_block_nonce h.nonce d
    else let infos = bucket d.headers h.nonce in
      if is_stored h infos
      then d
      else record d { headers = insert h.nonce (infos ++ h ∷ []) d.headers }

unfoldable pub max_nonce : ℕ → HeaderMap → ℕ
max_nonce best [] = best
max_nonce best ((nonce, infos) ∷ m) = max_nonce (if leb nonce best then best else nonce) m

unfoldable pub compute_probable_highest_nonce : ForkDetector → ℕ
unfolding max_nonce
compute_probable_highest_nonce d = max_nonce d.final_checkpoint.nonce d.headers

unfoldable pub reset_probable_highest_nonce : ForkDetector → ForkDetector
unfolding last_checkpoint set_probable_highest_nonce
reset_probable_highest_nonce d = set_probable_highest_nonce (last_checkpoint d).nonce d

unfoldable pub reset_fork : ForkDetector → ForkDetector
unfolding cleanup_received_headers_higher_than_nonce set_should_force_fork last_checkpoint
reset_fork d =
    set_should_force_fork false
      (cleanup_received_headers_higher_than_nonce (last_checkpoint d).nonce d)

unfoldable pub notarized_hash : List HeaderInfo → Option Bytes
unfolding state_eq
notarized_hash [] = none
notarized_hash (h ∷ hs) =
    let rest = notarized_hash hs in if state_eq h.state notarized then some h.hash else rest

-- GetNotarizedHeaderHash; `none` is the nil hash
unfoldable pub get_notarized_header_hash : ForkDetector → ℕ → Option Bytes
unfolding notarized_hash bucket
get_notarized_header_hash d nonce = notarized_hash (bucket d.headers nonce)
