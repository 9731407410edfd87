-- ===== src/Sync/ForkDetector/Consistent.antt =====
-- A consistent fork detector, and what AddHeader does to it once a header is accepted.
use elrond_go.Prelude.{
  ◌≤◌, ◌≡◌, inl, inr, Bool, true, false, not, List, [], ◌∷◌, arith, ltb, leb, if◌then◌else◌,
  Bool-cases,
}
use elrond_go.Prelude.Bytes.{Bytes}
use elrond_go.Prelude.Maps.{All, All-keep_test}
use elrond_go.Sync.ForkDetector.Types.{
  BlockHeaderState, processed, notarized, state_eq, Header, HeaderInfo, CheckpointInfo,
  ForkDetector, Rounder,
}
use elrond_go.Sync.ForkDetector.Store.{
  set_final_checkpoint, add_checkpoint, last_checkpoint, set_is_notarized_shard_stuck,
  remove_past_or_invalid_records, remove_checkpoints_behind_nonce, append_header,
  set_last_proposed_block_nonce,
}
use elrond_go.Sync.ForkDetector.Validity.{
  activate_forced_fork_if_needed, activate_forced_fork_on_consensus_stuck_if_needed,
  activate_forced_fork_on_cross_notarized_stuck_if_needed,
}
use elrond_go.Sync.ForkDetector.AddHeader.{
  info_of, add_final_header, add_final_headers_from, add_final_headers, effective_state,
  store_header, checkpoint_of, on_processed_shard, on_processed_meta, accept_shard, accept_meta,
}
use elrond_go.Sync.ForkDetector.Invariant.{
  IsHeaderMap, append_header-IsHeaderMap, remove_past_or_invalid_records-IsHeaderMap,
}

-- forcing a fork changes one flag
pub record SameData (d d' : ForkDetector) : Type 0 where
  pub headers : d'.headers ≡ d.headers
  pub checkpoint : d'.checkpoint ≡ d.checkpoint
  pub final_checkpoint : d'.final_checkpoint ≡ d.final_checkpoint

module _ (r : Rounder) (h : Header) (state : BlockHeaderState) where
  on_consensus_stuck-SameData :
      (d : ForkDetector)
      → SameData d (activate_forced_fork_on_consensus_stuck_if_needed r h state d)
  unfolding activate_forced_fork_on_consensus_stuck_if_needed
  on_consensus_stuck-SameData d = ground arith

  on_cross_notarized_stuck-SameData :
      (d : ForkDetector)
      → SameData d (activate_forced_fork_on_cross_notarized_stuck_if_needed r h state d)
  unfolding activate_forced_fork_on_cross_notarized_stuck_if_needed
  on_cross_notarized_stuck-SameData d = ground arith

  pub forced_fork_meta-SameData :
      (d : ForkDetector)
      → SameData d (activate_forced_fork_on_consensus_stuck_if_needed r h state d)
  forced_fork_meta-SameData = on_consensus_stuck-SameData

  pub forced_fork_shard-SameData :
      (d : ForkDetector) → SameData d (activate_forced_fork_if_needed r h state d)
  unfolding activate_forced_fork_if_needed
  forced_fork_shard-SameData d =
      let d' = activate_forced_fork_on_consensus_stuck_if_needed r h state d in
      ground (arith, on_consensus_stuck-SameData d, on_cross_notarized_stuck-SameData d')

-- the map is sound, and no checkpoint lies behind the final one
pub record IsConsistent (d : ForkDetector) : Type 0 where
  pub map : IsHeaderMap d.headers
  pub checkpoints : All (λ c. d.final_checkpoint.nonce ≤ c.nonce) d.checkpoint

SameData-IsConsistent : (d d' : ForkDetector) → SameData d d' → IsConsistent d → IsConsistent d'
SameData-IsConsistent d d' s c = record {
  map = rw s.headers c.map;
  checkpoints = rw (s.final_checkpoint, s.checkpoint) c.checkpoints;
}

pub append_header-checkpoint :
    (h : HeaderInfo) (d : ForkDetector)
    → ((append_header h d).checkpoint ≡ d.checkpoint)
      × ((append_header h d).final_checkpoint ≡ d.final_checkpoint)
unfolding append_header set_last_proposed_block_nonce
append_header-checkpoint h d = ground arith

store_header-IsConsistent :
    (r : Rounder) (h : Header) (hash : Bytes) (state : BlockHeaderState) (d : ForkDetector)
    → IsConsistent d
    → IsConsistent (store_header r h hash state d)
unfolding store_header
store_header-IsConsistent r h hash state d c =
    let info = info_of h hash state in
    record {
      map = append_header-IsHeaderMap d c.map info;
      checkpoints =
          let (same, final) = append_header-checkpoint info d in rw (final, same) c.checkpoints;
    }

add_final_header-IsHeaderMap :
    (h : Header) (hash : Bytes) (b : Bool) (d : ForkDetector)
    → IsHeaderMap d.headers
    → IsHeaderMap (add_final_header h hash (b, d)).1.headers
unfolding add_final_header
add_final_header-IsHeaderMap h hash b d m =
    elim (Bool-cases (leb d.final_checkpoint.nonce h.nonce)) [
      | inl e ↦ rw e (added b)
      | inr e ↦ rw e m
    ]
  where
    cp : CheckpointInfo
    cp = record { nonce = h.nonce; round = h.round }

    added :
        (b : Bool)
        → IsHeaderMap
            (append_header
              (info_of h hash notarized)
              (if b then d else set_final_checkpoint cp d)).headers
    added true = append_header-IsHeaderMap d m (info_of h hash notarized)
    added false = append_header-IsHeaderMap (set_final_checkpoint cp d) m (info_of h hash notarized)

add_final_headers_from-IsHeaderMap :
    (fs : List (Header × Bytes)) (b : Bool) (d : ForkDetector)
    → IsHeaderMap d.headers
    → IsHeaderMap (add_final_headers_from fs (b, d)).1.headers
unfolding add_final_headers_from
add_final_headers_from-IsHeaderMap [] b d m = m
add_final_headers_from-IsHeaderMap ((h, hash) ∷ fs) b d m =
    let (b', d') = add_final_header h hash (b, d) in
    add_final_headers_from-IsHeaderMap fs b' d' (add_final_header-IsHeaderMap h hash b d m)

pub behind_removed :
    (d : ForkDetector)
    → All
        (λ c. (remove_past_or_invalid_records d).final_checkpoint.nonce ≤ c.nonce)
        (remove_past_or_invalid_records d).checkpoint
unfolding remove_past_or_invalid_records remove_checkpoints_behind_nonce
behind_removed d =
    All-keep_test (λ c. d.final_checkpoint.nonce ≤ c.nonce)
      (λ c. not (ltb c.nonce d.final_checkpoint.nonce)) (λ c e. ground arith) d.checkpoint

on_processed_shard-IsConsistent :
    (h : Header) (fs : List (Header × Bytes)) (stuck : Bool) (d : ForkDetector)
    → IsConsistent d
    → IsConsistent (on_processed_shard h fs stuck d)
unfolding on_processed_shard add_final_headers set_is_notarized_shard_stuck
    remove_past_or_invalid_records
on_processed_shard-IsConsistent h fs stuck d c =
    let d' = checkpoint_of h (add_final_headers fs d) in
    record {
      map = remove_past_or_invalid_records-IsHeaderMap d' (
          unfold checkpoint_of add_checkpoint in
          add_final_headers_from-IsHeaderMap fs false d c.map);
      checkpoints = behind_removed d';
    }

on_processed_meta-IsConsistent :
    (h : Header) (stuck : Bool) (d : ForkDetector)
    → IsConsistent d
    → IsConsistent (on_processed_meta h stuck d)
unfolding on_processed_meta set_is_notarized_shard_stuck remove_past_or_invalid_records
on_processed_meta-IsConsistent h stuck d c =
    let d' = checkpoint_of h (set_final_checkpoint (last_checkpoint d) d) in
    record {
      map =
          remove_past_or_invalid_records-IsHeaderMap d'
            (unfold checkpoint_of add_checkpoint set_final_checkpoint in c.map);
      checkpoints = behind_removed d';
    }

if-IsConsistent :
    (b : Bool) (d e : ForkDetector)
    → IsConsistent d
    → IsConsistent e
    → IsConsistent (if b then d else e)
if-IsConsistent true d e c k = c
if-IsConsistent false d e c k = k

module _ (r : Rounder) (h : Header) (hash : Bytes) (state : BlockHeaderState) where
  pub accept_shard-IsConsistent :
      (fs : List (Header × Bytes)) (stuck : Bool) (d : ForkDetector)
      → IsConsistent d
      → IsConsistent (accept_shard r h hash state fs stuck d)
  unfolding accept_shard
  accept_shard-IsConsistent fs stuck d c =
      let d' = activate_forced_fork_if_needed r h state d in
      let state' = effective_state r h state in
      let c' = SameData-IsConsistent d d' (forced_fork_shard-SameData r h state d) c in
      store_header-IsConsistent r h hash state' _ (
        if-IsConsistent (state_eq state' processed) (on_processed_shard h fs stuck d') d'
          (on_processed_shard-IsConsistent h fs stuck d' c') c')

  pub accept_meta-IsConsistent :
      (stuck : Bool) (d : ForkDetector)
      → IsConsistent d
      → IsConsistent (accept_meta r h hash state stuck d)
  unfolding accept_meta
  accept_meta-IsConsistent stuck d c =
      let d' = activate_forced_fork_on_consensus_stuck_if_needed r h state d in
      let state' = effective_state r h state in
      let c' = SameData-IsConsistent d d' (forced_fork_meta-SameData r h state d) c in
      store_header-IsConsistent r h hash state' _ (
        if-IsConsistent (state_eq state' processed) (on_processed_meta h stuck d') d'
          (on_processed_meta-IsConsistent h stuck d' c') c')
