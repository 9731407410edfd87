-- ===== src/Consensus/Tests.antt =====
-- A group of two validators.
use elrond_go.Prelude.{suc, ◌≡◌, refl, true, none, some, List, [], ◌∷◌}
use elrond_go.Prelude.Bytes.{Bytes, bytes_eq}
use elrond_go.Consensus.Round.{
  ConsensusState, ss_not_finished, set_consensus_group, set_job_done, set_job, state_at, is_member,
  job_done, new_round_state, compute_size,
}
use elrond_go.Consensus.Size.{compute_size-set_job_done}

abbrev empty_state : ConsensusState
empty_state = record {
  eligible_list = [];
  consensus_group = [];
  consensus_group_size = 2;
  self_pub_key = 1 ∷ [];
  validator_round_states = λ key. none;
  threshold = λ subround. 0;
  status = λ subround. ss_not_finished;
  data_set = true;
}

abbrev pair : List Bytes
pair = (1 ∷ []) ∷ (2 ∷ []) ∷ []

abbrev started : ConsensusState
started = set_consensus_group pair empty_state

abbrev first_done : ConsensusState
first_done = record started {
  validator_round_states =
      state_at (1 ∷ []) (set_job new_round_state 4 true) started.validator_round_states;
}

set_it : set_job_done (1 ∷ []) 4 true started ≡ some first_done
unfolding set_job_done set_consensus_group is_member bytes_eq
set_it = refl

compute_size-set_job_done_example : compute_size first_done 4 ≡ suc (compute_size started 4)
compute_size-set_job_done_example =
    compute_size-set_job_done started first_done (1 ∷ []) 4
      (unfold set_consensus_group is_member bytes_eq in (refl, (refl, tt)))
      (unfold set_consensus_group is_member bytes_eq in refl)
      (unfold job_done set_consensus_group is_member bytes_eq new_round_state in refl) set_it
