-- ===== src/Sharding/Tests.antt =====
-- A coordinator of five shards.
mod Validators
use elrond_go.Prelude.{◌<◌, ◌≡◌, refl, ◌⊎◌, some, [], ◌∷◌, arith}
use elrond_go.Sharding.Coordinator.{
  metachain_shard_id, MultiShardCoordinator, ceil_log2_from, ceil_log2, calculate_masks,
  new_multi_shard_coordinator, buff_needed, address_number, is_smart_contract_on_metachain,
  compute_id,
}
use elrond_go.Sharding.Bounds.{compute_id_bound}

abbrev five_shards : MultiShardCoordinator
five_shards = record { mask_high = 3; mask_low = 2; self_id = 1; number_of_shards = 5 }

made : new_multi_shard_coordinator 5 1 ≡ some five_shards
unfolding new_multi_shard_coordinator calculate_masks ceil_log2 ceil_log2_from
made = refl

-- 7 is no shard, so the low mask is taken
seven : compute_id five_shards (0 ∷ 7 ∷ []) ≡ 3
unfolding compute_id buff_needed address_number is_smart_contract_on_metachain
seven = refl

compute_id_bound_example :
    (compute_id five_shards (0 ∷ 7 ∷ []) ≡ metachain_shard_id)
    ⊎ (compute_id five_shards (0 ∷ 7 ∷ []) < 5)
compute_id_bound_example = compute_id_bound 5 1 five_shards (omega arith) made (0 ∷ 7 ∷ [])
