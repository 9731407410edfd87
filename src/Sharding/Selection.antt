-- ===== src/Sharding/Selection.antt =====
-- sharding/indexHashedNodesCoordinator.go: the constructor, and GetSelectedPublicKeys, which reads the
-- signers of a block from a bitmap.
use elrond_go.Prelude.{
  ℕ, ◌+◌, ◌*◌, ◌/◌, ◌%◌, ◌^◌, Bool, Option, none, some, List, [], ◌∷◌, ltb, ◌==◌, if◌then◌else◌,
  length, get_elem?, set, replicate,
}
use elrond_go.Prelude.Bytes.{Bytes}
use elrond_go.Sharding.Coordinator.{metachain_shard_id}
use elrond_go.Sharding.Nodes.{
  Validator, SelectionError, err_invalid_shard_id, err_eligible_selection_mismatch,
  err_eligible_too_many_selections, err_eligible_too_few_selections,
  err_invalid_consensus_group_size, err_invalid_number_of_shards, NodesMap, NodesCoordinator, Run,
  finished, failed, panics, and_then, expand_eligible_list, set_nodes_per_shards, group_size,
}

-- checkArguments, on a hasher and a key that are not nil
unfoldable pub check_arguments : NodesCoordinator → Option SelectionError
check_arguments c =
    if ltb c.shard_consensus_group_size 1
    then some err_invalid_consensus_group_size
    else if ltb c.meta_consensus_group_size 1
    then some err_invalid_consensus_group_size
    else if ltb c.nb_shards 1
    then some err_invalid_number_of_shards
    else if ltb c.shard_id c.nb_shards
    then none
    else if c.shard_id == metachain_shard_id
    then none
    else some err_invalid_shard_id

unfoldable pub made : NodesCoordinator × Option SelectionError → Run NodesCoordinator
made (c, none) = finished c
made (c, some e) = failed e

-- the arguments are the coordinator with no nodes yet
unfoldable pub new_index_hashed_nodes_coordinator :
    NodesCoordinator → Option NodesMap → Run NodesCoordinator
new_index_hashed_nodes_coordinator c nodes = elim (check_arguments c) [
  | some e ↦ failed e
  | none ↦ made (set_nodes_per_shards nodes c)
]

-- selection[i/8] & (1 << (i % 8)) != 0
unfoldable pub is_selected : Bytes → ℕ → Run Bool
is_selected selection i = elim (get_elem? selection (i / 8)) [
  | none ↦ panics
  | some b ↦ finished (b / 2 ^ (i % 8) % 2 == 1)
]

-- publicKeys[cnt] = key
unfoldable pub put_key : List Bytes → ℕ → Bytes → Run (List Bytes)
put_key keys cnt key = if ltb cnt (length keys) then finished (set keys cnt key) else panics

module _ (selection : Bytes) (size : ℕ) where
  -- the loop over the eligible validators; the test of the count stands behind the assignment
  unfoldable pub select_keys : List Validator → ℕ → List Bytes → ℕ → Run (List Bytes × ℕ)
  select_keys [] i keys cnt = finished (keys, cnt)
  select_keys (v ∷ vs) i keys cnt =
      let skipped = select_keys vs (i + 1) keys cnt in
      and_then (is_selected selection i) (λ t.
        if t
        then and_then (put_key keys cnt v.pub_key) (λ keys'.
          let rest = select_keys vs (i + 1) keys' (cnt + 1) in
          if ltb size (cnt + 1) then failed err_eligible_too_many_selections else rest)
        else skipped)

unfoldable pub enough_keys : ℕ → List Bytes × ℕ → Run (List Bytes)
enough_keys size (keys, cnt) =
    if ltb cnt size then failed err_eligible_too_few_selections else finished keys

unfoldable pub selected_of : Bytes → ℕ → List Validator → Run (List Bytes)
selected_of selection size eligible =
    let keys = select_keys selection size eligible 0 (replicate size []) 0 in
    if ltb (length selection * 8 % 2 ^ 16) (length eligible % 2 ^ 16)
    then failed err_eligible_selection_mismatch
    else and_then keys (λ r. enough_keys size r)

-- for fewer than 2 ^ 16 eligible validators, which is how far the loop's counter goes
unfoldable pub get_selected_public_keys : NodesCoordinator → Bytes → ℕ → Run (List Bytes)
get_selected_public_keys c selection shard_id =
    let keys =
      selected_of selection (group_size c shard_id) (expand_eligible_list c.nodes_map shard_id) in
    if ltb shard_id c.nb_shards
    then keys
    else if shard_id == metachain_shard_id
    then keys
    else failed err_invalid_shard_id
