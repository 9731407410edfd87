-- ===== src/Sync/ForkDetector/Reachable.antt =====
-- What holds of a fork detector after any sequence of calls.
use elrond_go.Prelude.{◌≤◌, Bool, not, Option, none, some, List, [], ◌∷◌, arith, ◌==◌}
use elrond_go.Prelude.Int.{ℤ}
use elrond_go.Prelude.Bytes.{Bytes}
use elrond_go.Prelude.Maps.{All, All-keep}
use elrond_go.Sync.ForkDetector.Types.{
  BlockHeaderState, Header, CheckpointInfo, ForkDetector, Rounder, BlackListHandler, Err,
}
use elrond_go.Sync.ForkDetector.Store.{
  last_checkpoint, remove_headers, remove_checkpoint_with_nonce, reset_fork,
  reset_probable_highest_nonce, restore_final_checkpoint_to_genesis,
}
use elrond_go.Sync.ForkDetector.Validity.{check_block_basic_validity}
use elrond_go.Sync.ForkDetector.AddHeader.{
  new_fork_detector, accept_shard, accept_meta, after_check, add_header_shard, add_header_meta,
}
use elrond_go.Sync.ForkDetector.Invariant.{remove_headers-IsHeaderMap, cleanup-IsHeaderMap}
use elrond_go.Sync.ForkDetector.Steps.{
  Chain, shard, meta, Call, add_header, remove, reset, reset_highest, restore_genesis,
  add_header_of, step, run,
}
use elrond_go.Sync.ForkDetector.Consistent.{
  IsConsistent, accept_meta-IsConsistent, accept_shard-IsConsistent,
}

module _ {B : Type 0} (accept : ForkDetector → ForkDetector) (d : ForkDetector) where
  after_check-IsConsistent :
      (checked : Option Err × B)
      → IsConsistent d
      → IsConsistent (accept d)
      → IsConsistent (after_check accept d checked).1
  after_check-IsConsistent (none, b) c a = a
  after_check-IsConsistent (some e, b) c a = c

module _ {B : Type 0} (handler : BlackListHandler B) where
  add_header_of-IsConsistent :
      (chain : Chain) (r : Rounder) (h : Option Header) (hash : Option Bytes)
      (state : BlockHeaderState) (fs : List (Header × Bytes)) (stuck : Bool) (d : ForkDetector)
      (b : B)
      → IsConsistent d
      → IsConsistent (add_header_of handler chain r h hash state fs stuck d b).1
  unfolding add_header_of add_header_shard add_header_meta
  add_header_of-IsConsistent shard r none hash state fs stuck d b c = c
  add_header_of-IsConsistent shard r (some h) none state fs stuck d b c = c
  add_header_of-IsConsistent shard r (some h) (some hash) state fs stuck d b c =
      after_check-IsConsistent (accept_shard r h hash state fs stuck) d
        (check_block_basic_validity handler r d h hash state b) c
        (accept_shard-IsConsistent r h hash state fs stuck d c)
  add_header_of-IsConsistent meta r none hash state fs stuck d b c = c
  add_header_of-IsConsistent meta r (some h) none state fs stuck d b c = c
  add_header_of-IsConsistent meta r (some h) (some hash) state fs stuck d b c =
      after_check-IsConsistent (accept_meta r h hash state stuck) d
        (check_block_basic_validity handler r d h hash state b) c
        (accept_meta-IsConsistent r h hash state stuck d c)

  -- Every call of a fork detector keeps the map of headers and the checkpoints consistent.
  pub step-IsConsistent :
      (chain : Chain) (call : Call) (d : ForkDetector) (b : B)
      → IsConsistent d
      → IsConsistent (step handler chain call (d, b)).0
  unfolding step
  step-IsConsistent chain (add_header r h hash state fs stuck) d b c =
      add_header_of-IsConsistent chain r h hash state fs stuck d b c
  step-IsConsistent chain (remove nonce) d b c = record {
    map = remove_headers-IsHeaderMap d c.map nonce;
    checkpoints =
        unfold remove_headers remove_checkpoint_with_nonce in
        All-keep (λ x. d.final_checkpoint.nonce ≤ x.nonce) (λ x. not (x.nonce == nonce))
          d.checkpoint c.checkpoints;
  }
  step-IsConsistent chain reset d b c = record {
    map = unfold reset_fork in cleanup-IsHeaderMap d c.map (last_checkpoint d).nonce;
    checkpoints = unfold reset_fork in c.checkpoints;
  }
  step-IsConsistent chain reset_highest d b c = record {
    map = unfold reset_probable_highest_nonce in c.map;
    checkpoints = unfold reset_probable_highest_nonce in c.checkpoints;
  }
  step-IsConsistent chain restore_genesis d b c = record {
    map = unfold restore_final_checkpoint_to_genesis in c.map;
    checkpoints = unfold restore_final_checkpoint_to_genesis in all_positive d.checkpoint;
  }
    where
      all_positive : (cs : List CheckpointInfo) → All (λ x. 0 ≤ x.nonce) cs
      all_positive [] = tt
      all_positive (x ∷ xs) = (omega arith, all_positive xs)

  run-IsConsistent :
      (chain : Chain) (calls : List Call) (d : ForkDetector) (b : B)
      → IsConsistent d
      → IsConsistent (run handler chain calls (d, b)).0
  unfolding run
  run-IsConsistent chain [] d b c = c
  run-IsConsistent chain (call ∷ calls) d b c =
      let (d', b') = step handler chain call (d, b) in
      run-IsConsistent chain calls d' b' (step-IsConsistent chain call d b c)

  -- A fork detector of a shard or of the metachain, after any calls whatever, has one bucket for a
  -- nonce, no empty bucket, in each bucket only headers of its nonce, none of them a proposal and no
  -- two with the same hash and state, and no checkpoint below the final one.
  pub new-run-IsConsistent :
      (chain : Chain) (calls : List Call) (genesis_time : ℤ) (b : B)
      → IsConsistent (run handler chain calls (new_fork_detector genesis_time, b)).0
  new-run-IsConsistent chain calls genesis_time b =
      run-IsConsistent chain calls (new_fork_detector genesis_time) b (
        unfold new_fork_detector in
        record { map = record { distinct = tt; buckets = tt }; checkpoints = (omega arith, tt) })
