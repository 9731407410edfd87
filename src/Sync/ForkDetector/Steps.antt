-- ===== src/Sync/ForkDetector/Steps.antt =====
-- The calls that change a fork detector, one at a time and in sequence.
use elrond_go.Prelude.{ℕ, Bool, Option, List, [], ◌∷◌}
use elrond_go.Prelude.Bytes.{Bytes}
use elrond_go.Sync.ForkDetector.Types.{
  BlockHeaderState, Header, ForkDetector, Rounder, BlackListHandler, Err,
}
use elrond_go.Sync.ForkDetector.Store.{
  restore_final_checkpoint_to_genesis, remove_headers, reset_probable_highest_nonce, reset_fork,
}
use elrond_go.Sync.ForkDetector.AddHeader.{add_header_shard, add_header_meta}

-- which of the two detectors it is
pub data Chain : Type 0 where
  shard meta : Chain

-- the exported methods that change the state, with their arguments
pub data Call : Type 0 where
  add_header :
      Rounder
      → Option Header
      → Option Bytes
      → BlockHeaderState
      → List (Header × Bytes)
      → Bool
      → Call
  remove : ℕ → Call
  reset : Call
  reset_highest : Call
  restore_genesis : Call

module _ {B : Type 0} (handler : BlackListHandler B) where
  unfoldable pub add_header_of :
      Chain
      → Rounder
      → Option Header
      → Option Bytes
      → BlockHeaderState
      → List (Header × Bytes)
      → Bool
      → ForkDetector
      → B
      → Option Err × ForkDetector × B
  add_header_of shard = add_header_shard handler
  add_header_of meta = add_header_meta handler

  unfoldable pub step : Chain → Call → ForkDetector × B → ForkDetector × B
  step chain (add_header r h hash state finals stuck) (d, b) =
      let (e, d', b') = add_header_of chain r h hash state finals stuck d b in (d', b')
  step chain (remove nonce) (d, b) = (remove_headers nonce d, b)
  step chain reset (d, b) = (reset_fork d, b)
  step chain reset_highest (d, b) = (reset_probable_highest_nonce d, b)
  step chain restore_genesis (d, b) = (restore_final_checkpoint_to_genesis d, b)

  unfoldable pub run : Chain → List Call → ForkDetector × B → ForkDetector × B
  run chain [] s = s
  run chain (c ∷ cs) s = run chain cs (step chain c s)
