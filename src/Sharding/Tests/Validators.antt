-- ===== src/Sharding/Tests/Validators.antt =====
-- Three validators of a shard, of which two form the consensus group.
use elrond_go.Prelude.{ℕ, ◌≡◌, refl, none, some, List, [], ◌∷◌, arith}
use elrond_go.Prelude.Bytes.{bytes_eq}
use elrond_go.Prelude.Int.{pos}
use elrond_go.Prelude.Maps.{lookup}
use elrond_go.Sharding.Coordinator.{metachain_shard_id}
use elrond_go.Sharding.Nodes.{
  Validator, NodesMap, NodesCoordinator, validators_of, expand_eligible_list, shards_are_large,
  is_small_meta, set_nodes_per_shards, validator_is_in_list, compute_validators_group,
}
use elrond_go.Sharding.Selected.{NoneTwice}
use elrond_go.Sharding.Group.{Chosen, compute_validators_group-Chosen}
use elrond_go.Sharding.Selection.{selected_of}
use elrond_go.Sharding.Signers.{signers, by_number, selected_of-signers}

abbrev validator : ℕ → Validator
validator n = record { stake = pos 500; rating = pos 1; pub_key = n ∷ []; address = n ∷ n ∷ [] }

abbrev three : List Validator
three = validator 1 ∷ validator 2 ∷ validator 3 ∷ []

abbrev nodes : NodesMap
nodes = (0, three) ∷ (metachain_shard_id, three) ∷ []

abbrev empty_coordinator : NodesCoordinator
empty_coordinator = record {
  nb_shards = 1;
  shard_id = 0;
  hash = λ b. b;
  nodes_map = [];
  shard_consensus_group_size = 2;
  meta_consensus_group_size = 1;
}

abbrev coordinator : NodesCoordinator
coordinator = record empty_coordinator { nodes_map = nodes }

nodes_set : set_nodes_per_shards (some nodes) empty_coordinator ≡ (coordinator, none)
unfolding set_nodes_per_shards is_small_meta lookup shards_are_large expand_eligible_list
    validators_of
nodes_set = refl

nodes-NoneTwice : NoneTwice (expand_eligible_list nodes 0)
unfolding expand_eligible_list lookup validators_of validator_is_in_list bytes_eq
nodes-NoneTwice = (refl, (refl, (refl, tt)))

compute_validators_group-Chosen_example :
    Chosen
      (expand_eligible_list nodes 0)
      2
      (compute_validators_group coordinator (some (7 ∷ 8 ∷ [])) 12 0)
compute_validators_group-Chosen_example =
    compute_validators_group-Chosen nodes empty_coordinator coordinator (7 ∷ 8 ∷ []) 12 0 nodes_set
      (omega arith) (omega arith) nodes-NoneTwice

-- the bits of all three, for a group of two
selected_of-signers_example : selected_of (7 ∷ []) 2 three ≡ by_number 2 (signers (7 ∷ []) 0 three)
selected_of-signers_example = selected_of-signers (7 ∷ []) 2 three (omega arith) (omega arith)
