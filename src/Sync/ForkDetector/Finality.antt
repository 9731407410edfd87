-- ===== src/Sync/ForkDetector/Finality.antt =====
-- The final checkpoint as headers come in.
use elrond_go.Prelude.{
  ℕ, ◌≤◌, ◌≡◌, ◌≢◌, refl, ap, inl, inr, Bool, true, false, Option, none, some, List, [], ◌∷◌, arith,
  leb, leb→le, Bool-cases, if◌then◌else◌,
}
use elrond_go.Prelude.Bytes.{Bytes}
use elrond_go.Prelude.Maps.{All}
use elrond_go.Sync.ForkDetector.Types.{
  BlockHeaderState, notarized, Header, CheckpointInfo, ForkDetector, Rounder, BlackListHandler, Err,
}
use elrond_go.Sync.ForkDetector.Store.{
  set_final_checkpoint, add_checkpoint, last_of, last_checkpoint, set_is_notarized_shard_stuck,
  remove_past_or_invalid_records, append_header,
}
use elrond_go.Sync.ForkDetector.Validity.{
  check_block_basic_validity, activate_forced_fork_if_needed,
  activate_forced_fork_on_consensus_stuck_if_needed,
}
use elrond_go.Sync.ForkDetector.AddHeader.{
  info_of, add_final_header, add_final_headers_from, add_final_headers, store_header, checkpoint_of,
  on_processed_shard, on_processed_meta, accept_shard, accept_meta, after_check, add_header_shard,
  add_header_meta,
}
use elrond_go.Sync.ForkDetector.Steps.{Chain, shard, meta, add_header_of}
use elrond_go.Sync.ForkDetector.Consistent.{
  forced_fork_shard-SameData, forced_fork_meta-SameData, append_header-checkpoint, IsConsistent,
}

final-add_final_header :
    (h : Header) (hash : Bytes) (b : Bool) (d : ForkDetector)
    → d.final_checkpoint.nonce ≤ (add_final_header h hash (b, d)).1.final_checkpoint.nonce
unfolding add_final_header
final-add_final_header h hash b d = elim (Bool-cases (leb d.final_checkpoint.nonce h.nonce)) [
  | inl e ↦ rw e (added b (leb→le d.final_checkpoint.nonce h.nonce e))
  | inr e ↦ rw e (omega arith)
]
  where
    cp : CheckpointInfo
    cp = record { nonce = h.nonce; round = h.round }

    added :
        (b : Bool)
        → d.final_checkpoint.nonce ≤ h.nonce
        → d.final_checkpoint.nonce
          ≤ (append_header
              (info_of h hash notarized)
              (if b then d else set_final_checkpoint cp d)).final_checkpoint.nonce
    added true le = rw (append_header-checkpoint (info_of h hash notarized) d).1 (omega arith)
    added false le =
        rw (append_header-checkpoint (info_of h hash notarized) (set_final_checkpoint cp d)).1 le

final-add_final_headers_from :
    (fs : List (Header × Bytes)) (b : Bool) (d : ForkDetector)
    → d.final_checkpoint.nonce ≤ (add_final_headers_from fs (b, d)).1.final_checkpoint.nonce
unfolding add_final_headers_from
final-add_final_headers_from [] b d = omega arith
final-add_final_headers_from ((h, hash) ∷ fs) b d =
    let (b', d') = add_final_header h hash (b, d) in
    omega (arith, final-add_final_header h hash b d, final-add_final_headers_from fs b' d')

final-on_processed_shard :
    (h : Header) (fs : List (Header × Bytes)) (stuck : Bool) (d : ForkDetector)
    → d.final_checkpoint.nonce ≤ (on_processed_shard h fs stuck d).final_checkpoint.nonce
unfolding on_processed_shard add_final_headers set_is_notarized_shard_stuck
    remove_past_or_invalid_records checkpoint_of add_checkpoint
final-on_processed_shard h fs stuck d = final-add_final_headers_from fs false d

last-All :
    (n : ℕ) (cs : List CheckpointInfo)
    → cs ≢ []
    → All (λ c. n ≤ c.nonce) cs
    → n ≤ (last_of cs).nonce
unfolding last_of
last-All n [] e a = absurd (e refl)
last-All n (c ∷ []) e a = a.0
last-All n (c ∷ d ∷ cs) e a = last-All n (d ∷ cs) (λ x. cc) a.1

final-on_processed_meta :
    (h : Header) (stuck : Bool) (d : ForkDetector)
    → d.checkpoint ≢ []
    → All (λ c. d.final_checkpoint.nonce ≤ c.nonce) d.checkpoint
    → d.final_checkpoint.nonce ≤ (on_processed_meta h stuck d).final_checkpoint.nonce
unfolding on_processed_meta set_is_notarized_shard_stuck remove_past_or_invalid_records
    checkpoint_of add_checkpoint set_final_checkpoint last_checkpoint
final-on_processed_meta h stuck d e a = last-All d.final_checkpoint.nonce d.checkpoint e a

final-store_header :
    (r : Rounder) (h : Header) (hash : Bytes) (state : BlockHeaderState) (d : ForkDetector)
    → (store_header r h hash state d).final_checkpoint ≡ d.final_checkpoint
unfolding store_header
final-store_header r h hash state d = (append_header-checkpoint (info_of h hash state) d).1

module _ (r : Rounder) (h : Header) (hash : Bytes) (state : BlockHeaderState)
    (d : ForkDetector) where
  final-accept_shard :
      (fs : List (Header × Bytes)) (stuck : Bool)
      → d.final_checkpoint.nonce ≤ (accept_shard r h hash state fs stuck d).final_checkpoint.nonce
  unfolding accept_shard
  final-accept_shard fs stuck =
      let d' = activate_forced_fork_if_needed r h state d in
      let s = forced_fork_shard-SameData r h state d in
      rw final-store_header (
        ground (
          arith,
          s,
          ap (λ (c : CheckpointInfo). c.nonce) s.final_checkpoint,
          final-on_processed_shard h fs stuck d',
        ))

  final-accept_meta :
      (stuck : Bool)
      → d.checkpoint ≢ []
      → IsConsistent d
      → d.final_checkpoint.nonce ≤ (accept_meta r h hash state stuck d).final_checkpoint.nonce
  unfolding accept_meta
  final-accept_meta stuck e c =
      let d' = activate_forced_fork_on_consensus_stuck_if_needed r h state d in
      let s = forced_fork_meta-SameData r h state d in
      rw final-store_header (
        ground (
          arith,
          ap (λ (c : CheckpointInfo). c.nonce) s.final_checkpoint,
          final-on_processed_meta h stuck d' (rw s.checkpoint e)
              (rw (s.final_checkpoint, s.checkpoint) c.checkpoints),
        ))

module _ {B : Type 0} (handler : BlackListHandler B) where
  final-after_check :
      (accept : ForkDetector → ForkDetector) (d : ForkDetector) (checked : Option Err × B)
      → d.final_checkpoint.nonce ≤ (accept d).final_checkpoint.nonce
      → d.final_checkpoint.nonce ≤ (after_check accept d checked).1.final_checkpoint.nonce
  final-after_check accept d (none, b) le = le
  final-after_check accept d (some e, b) le = omega arith

  -- AddHeader never lowers the nonce of the final checkpoint, whatever the header and the answer: in
  -- a shard from any consistent state, on the metachain from one with at least one checkpoint.
  pub final-add_header_of :
      (chain : Chain) (r : Rounder) (h : Option Header) (hash : Option Bytes)
      (state : BlockHeaderState) (fs : List (Header × Bytes)) (stuck : Bool) (d : ForkDetector)
      (b : B)
      → IsConsistent d
      → (chain ≡ meta → d.checkpoint ≢ [])
      → d.final_checkpoint.nonce
        ≤ (add_header_of handler chain r h hash state fs stuck d b).1.final_checkpoint.nonce
  unfolding add_header_of add_header_shard add_header_meta
  final-add_header_of shard r none hash state fs stuck d b c e = omega arith
  final-add_header_of shard r (some h) none state fs stuck d b c e = omega arith
  final-add_header_of shard r (some h) (some hash) state fs stuck d b c e =
      final-after_check (accept_shard r h hash state fs stuck) d
        (check_block_basic_validity handler r d h hash state b)
        (final-accept_shard r h hash state d fs stuck)
  final-add_header_of meta r none hash state fs stuck d b c e = omega arith
  final-add_header_of meta r (some h) none state fs stuck d b c e = omega arith
  final-add_header_of meta r (some h) (some hash) state fs stuck d b c e =
      final-after_check (accept_meta r h hash state stuck) d
        (check_block_basic_validity handler r d h hash state b)
        (final-accept_meta r h hash state d stuck (e refl) c)
