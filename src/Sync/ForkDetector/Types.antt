-- ===== src/Sync/ForkDetector/Types.antt =====
-- The data of baseForkDetector.go: headers, checkpoints and the fork state.
use elrond_go.Prelude.{ℕ, Bool, true, false, List}
use elrond_go.Prelude.Int.{ℤ}
use elrond_go.Prelude.Bytes.{Bytes}

-- process.BlockHeaderState
pub data BlockHeaderState : Type 0 where
  received received_too_late processed proposed notarized : BlockHeaderState

unfoldable pub state_eq : BlockHeaderState → BlockHeaderState → Bool
state_eq received received = true
state_eq received_too_late received_too_late = true
state_eq processed processed = true
state_eq proposed proposed = true
state_eq notarized notarized = true
state_eq _ _ = false

-- what the detector reads of a data.HeaderHandler
pub record Header : Type 0 where
  pub nonce : ℕ
  pub round : ℕ
  pub time_stamp : ℕ
  pub prev_hash : Bytes
  pub pub_keys_bitmap : Bytes
  pub prev_rand_seed : Bytes
  pub rand_seed : Bytes

pub record HeaderInfo : Type 0 where
  pub nonce : ℕ
  pub round : ℕ
  pub hash : Bytes
  pub state : BlockHeaderState

pub record CheckpointInfo : Type 0 where
  pub nonce : ℕ
  pub round : ℕ

-- the zero value of checkpointInfo
abbrev pub genesis : CheckpointInfo
genesis = record { nonce = 0; round = 0 }

pub record ForkState : Type 0 where
  pub checkpoint : List CheckpointInfo
  pub final_checkpoint : CheckpointInfo
  pub probable_highest_nonce : ℕ
  pub last_block_round : ℕ
  pub last_proposed_block_nonce : ℕ
  pub should_force_fork : Bool
  pub is_notarized_shard_stuck : Bool

abbrev pub HeaderMap : Type 0
HeaderMap = List (ℕ × List HeaderInfo)

pub record ForkDetector : Type 0 where
  pub headers : HeaderMap
  pub fork : ForkState
  pub open fork use *
  pub genesis_time : ℤ

-- what the detector asks of consensus.Rounder: the round's index, and its duration in seconds
pub record Rounder : Type 0 where
  pub index : ℤ
  pub seconds : ℕ

-- process.BlackListHandler, with its state; `add` may fail, which the callers only log
pub record BlackListHandler (B : Type 0) : Type 0 where
  pub sweep : B → B
  pub has : B → Bytes → Bool
  pub add : B → Bytes → B

-- process.ForkInfo, the answer of CheckFork
pub record ForkInfo : Type 0 where
  pub is_detected : Bool
  pub nonce : ℕ
  pub round : ℕ
  pub hash : Bytes

pub data Err : Type 0 where
  nil_header nil_hash header_is_black_listed genesis_time_missmatch : Err
  lower_round_in_block lower_nonce_in_block higher_round_in_block higher_nonce_in_block : Err
  random_seed_not_valid block_is_not_signed : Err
