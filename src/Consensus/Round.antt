-- ===== src/Consensus/Round.antt =====
-- roundState.go, roundConsensus.go, roundStatus.go, roundThreshold.go, and the questions of
-- consensusState.go: who has done the job of which subround. The maps from a subround answer with
-- Go's zero value where nothing was set.
use elrond_go.Prelude.{
  ℕ, suc, Bool, true, false, not, Option, none, some, List, [], ◌∷◌, ◌==◌, if◌then◌else◌,
}
use elrond_go.Prelude.Bytes.{Bytes, bytes_eq}

-- `jobDone` of roundState
abbrev pub RoundState : Type 0
RoundState = ℕ → Bool

pub data SubroundStatus : Type 0 where
  ss_not_finished ss_finished : SubroundStatus

-- the fields of roundConsensus, roundThreshold and roundStatus, which ConsensusState holds together
pub record ConsensusState : Type 0 where
  pub eligible_list : List Bytes
  pub consensus_group : List Bytes
  pub consensus_group_size : ℕ
  pub self_pub_key : Bytes
  pub validator_round_states : Bytes → Option RoundState
  pub threshold : ℕ → ℕ
  pub status : ℕ → SubroundStatus
  -- whether `Data` is set
  pub data_set : Bool

unfoldable pub new_round_state : RoundState
new_round_state subround = false

unfoldable pub set_job : RoundState → ℕ → Bool → RoundState
set_job st subround value j = if j == subround then value else st j

unfoldable pub is_member : Bytes → List Bytes → Bool
is_member node [] = false
is_member node (k ∷ ks) = let rest = is_member node ks in if bytes_eq k node then true else rest

unfoldable pub is_node_in_consensus_group : ConsensusState → Bytes → Bool
unfolding is_member
is_node_in_consensus_group cns node = is_member node cns.consensus_group

unfoldable pub is_node_in_eligible_list : ConsensusState → Bytes → Bool
unfolding is_member
is_node_in_eligible_list cns node = is_member node cns.eligible_list

unfoldable pub set_consensus_group : List Bytes → ConsensusState → ConsensusState
unfolding is_member new_round_state
set_consensus_group group cns = record cns {
  consensus_group = group;
  validator_round_states = λ key. if is_member key group then some new_round_state else none;
}

abbrev pub answer : Option RoundState → ℕ → Option Bool
answer none subround = none
answer (some st) subround = some (st subround)

-- `none` is ErrInvalidKey
unfoldable pub job_done : ConsensusState → Bytes → ℕ → Option Bool
job_done cns key subround = answer (cns.validator_round_states key) subround

unfoldable pub state_at :
    Bytes → RoundState → (Bytes → Option RoundState) → Bytes → Option RoundState
state_at key st f k = if bytes_eq k key then some st else f k

-- `none` is ErrInvalidKey; nothing is changed then
unfoldable pub set_job_done : Bytes → ℕ → Bool → ConsensusState → Option ConsensusState
unfolding set_job state_at
set_job_done key subround value cns = elim (cns.validator_round_states key) [
  | none ↦ none
  | some st ↦ some (record cns {
    validator_round_states = state_at key (set_job st subround value) cns.validator_round_states;
  })
]

unfoldable pub self_job_done : ConsensusState → ℕ → Option Bool
unfolding job_done
self_job_done cns subround = job_done cns cns.self_pub_key subround

-- IsJobDone and IsSelfJobDone: an error counts as not done
abbrev pub is_true : Option Bool → Bool
is_true none = false
is_true (some b) = b

unfoldable pub is_job_done : ConsensusState → Bytes → ℕ → Bool
unfolding job_done
is_job_done cns node subround = is_true (job_done cns node subround)

-- the loop of ComputeSize
unfoldable pub count_done : (Bytes → Bool) → List Bytes → ℕ
count_done done [] = 0
count_done done (k ∷ ks) = let rest = count_done done ks in if done k then suc rest else rest

unfoldable pub compute_size : ConsensusState → ℕ → ℕ
unfolding is_job_done count_done
compute_size cns subround = count_done (λ k. is_job_done cns k subround) cns.consensus_group

abbrev pub reset_jobs : Option RoundState → Option RoundState
reset_jobs none = none
reset_jobs (some st) = some (λ subround. false)

unfoldable pub reset_round_state : ConsensusState → ConsensusState
unfolding is_member
reset_round_state cns = record cns {
  validator_round_states = λ key.
      if is_member key cns.consensus_group
      then reset_jobs (cns.validator_round_states key)
      else cns.validator_round_states key;
}

unfoldable pub reset_round_status : ConsensusState → ConsensusState
reset_round_status cns = record cns { status = λ subround. ss_not_finished }

unfoldable pub set_status : ℕ → SubroundStatus → ConsensusState → ConsensusState
set_status subround s cns = record cns { status = λ j. if j == subround then s else cns.status j }

unfoldable pub set_threshold : ℕ → ℕ → ConsensusState → ConsensusState
set_threshold subround n cns = record cns {
  threshold = λ j. if j == subround then n else cns.threshold j;
}

abbrev finished : SubroundStatus → Bool
finished ss_not_finished = false
finished ss_finished = true

unfoldable pub is_current_subround_finished : ConsensusState → ℕ → Bool
is_current_subround_finished cns subround = finished (cns.status subround)

unfoldable pub can_do_subround_job : ConsensusState → ℕ → Bool
unfolding is_job_done is_current_subround_finished
can_do_subround_job cns subround =
    if not cns.data_set
    then false
    else if is_job_done cns cns.self_pub_key subround
    then false
    else if is_current_subround_finished cns subround
    then false
    else true

unfoldable pub can_process_received_message : ConsensusState → Bytes → ℕ → ℕ → ℕ → Bool
unfolding is_job_done is_current_subround_finished
can_process_received_message cns pub_key message_round current_round subround =
    if bytes_eq pub_key cns.self_pub_key
    then false
    else if not (current_round == message_round)
    then false
    else if is_job_done cns pub_key subround
    then false
    else if is_current_subround_finished cns subround
    then false
    else true
