-- ===== src/Sharding/Nodes.antt =====
-- sharding/indexHashedNodesCoordinator.go: the validators of each shard, and the consensus group that
-- a random seed and a round choose. The hasher is not of the repository.
use elrond_go.Prelude.{
  ℕ, zero, suc, ◌+◌, ◌-◌, ◌*◌, ◌/◌, ◌%◌, ◌^◌, Bool, true, false, Option, none, some, List, [], ◌∷◌,
  ◌++◌, map, ltb, ◌==◌, if◌then◌else◌, length, get_elem?,
}
use elrond_go.Prelude.Bytes.{Bytes, bytes_eq}
use elrond_go.Prelude.Int.{ℤ}
use elrond_go.Prelude.Maps.{lookup}
use elrond_go.Sharding.Coordinator.{metachain_shard_id}

pub record Validator : Type 0 where
  pub stake : ℤ
  pub rating : ℤ
  pub pub_key : Bytes
  pub address : Bytes

pub data SelectionError : Type 0 where
  err_nil_input_nodes_map err_small_metachain_eligible_list_size : SelectionError
  err_small_shard_eligible_list_size err_nil_randomness err_invalid_shard_id : SelectionError
  err_nil_pub_key err_validator_not_found : SelectionError
  err_eligible_selection_mismatch err_eligible_too_many_selections : SelectionError
  err_eligible_too_few_selections err_invalid_consensus_group_size : SelectionError
  err_invalid_number_of_shards : SelectionError

abbrev pub NodesMap : Type 0
NodesMap = List (ℕ × List Validator)

pub record NodesCoordinator : Type 0 where
  pub nb_shards : ℕ
  pub shard_id : ℕ
  pub hash : Bytes → Bytes
  pub nodes_map : NodesMap
  pub shard_consensus_group_size : ℕ
  pub meta_consensus_group_size : ℕ

-- A run of Go code: an index out of range and a division by zero panic; a loop can run on.
pub data Run {ℓ} (A : Type ℓ) : Type ℓ where
  finished : A → Run A
  failed : SelectionError → Run A
  panics out_of_fuel : Run A

unfoldable pub and_then {ℓ ℓ'} : {A : Type ℓ} {B : Type ℓ'} → Run A → (A → Run B) → Run B
and_then (finished a) k = k a
and_then (failed e) k = failed e
and_then panics k = panics
and_then out_of_fuel k = out_of_fuel

-- A missing key reads as a nil slice.
unfoldable pub validators_of : Option (List Validator) → List Validator
validators_of none = []
validators_of (some vs) = vs

-- expandEligibleList
unfoldable pub expand_eligible_list : NodesMap → ℕ → List Validator
expand_eligible_list nodes shard_id = validators_of (lookup shard_id nodes)

-- the loop over the shards, with the number of those that are left
unfoldable pub shards_are_large : NodesMap → ℕ → ℕ → ℕ → Bool
shards_are_large nodes size zero i = true
shards_are_large nodes size (suc k) i =
    let rest = shards_are_large nodes size k (i + 1) in
    if ltb (length (expand_eligible_list nodes i)) size then false else rest

unfoldable pub is_small_meta : Option (List Validator) → ℕ → Bool
is_small_meta none size = false
is_small_meta (some vs) size = ltb (length vs) size

unfoldable pub set_nodes_per_shards :
    Option NodesMap → NodesCoordinator → NodesCoordinator × Option SelectionError
set_nodes_per_shards none c = (c, some err_nil_input_nodes_map)
set_nodes_per_shards (some nodes) c =
    if is_small_meta (lookup metachain_shard_id nodes) c.meta_consensus_group_size
    then (c, some err_small_metachain_eligible_list_size)
    else if shards_are_large nodes c.shard_consensus_group_size c.nb_shards 0
    then (record c { nodes_map = nodes }, none)
    else (c, some err_small_shard_eligible_list_size)

unfoldable pub group_size : NodesCoordinator → ℕ → ℕ
group_size c shard_id =
    if shard_id == metachain_shard_id
    then c.meta_consensus_group_size
    else c.shard_consensus_group_size

-- fmt's %d of a uint64, which has twenty digits at most
unfoldable pub decimal : ℕ → ℕ → Bytes → Bytes
decimal zero n rest = rest
decimal (suc k) n rest =
    let more = decimal k (n / 10) ((48 + n % 10) ∷ rest) in
    if ltb n 10 then (48 + n) ∷ rest else more

unfoldable pub base64_char : ℕ → ℕ
base64_char n =
    if ltb n 26
    then 65 + n
    else if ltb n 52
    then 97 + (n - 26)
    else if ltb n 62
    then 48 + (n - 52)
    else if n == 62
    then 43
    else 47

-- base64.StdEncoding, with padding
unfoldable pub to_b64 : Bytes → Bytes
to_b64 [] = []
to_b64 (a ∷ []) = base64_char (a / 4) ∷ base64_char (a % 4 * 16) ∷ 61 ∷ 61 ∷ []
to_b64 (a ∷ b ∷ []) =
    base64_char (a / 4) ∷ base64_char (a % 4 * 16 + b / 16) ∷ base64_char (b % 16 * 4) ∷ 61 ∷ []
to_b64 (a ∷ b ∷ c ∷ rest) =
    base64_char (a / 4)
    ∷ base64_char (a % 4 * 16 + b / 16)
    ∷ base64_char (b % 16 * 4 + c / 64)
    ∷ base64_char (c % 64)
    ∷ to_b64 rest

-- the round, a dash, and the randomness
unfoldable pub seed_of : ℕ → Bytes → Bytes
seed_of round randomness = decimal 20 round [] ++ 45 ∷ to_b64 randomness

-- binary.BigEndian.PutUint64
unfoldable pub big_endian : ℕ → ℕ → Bytes
big_endian zero n = []
big_endian (suc k) n = (n / 256 ^ k % 256) ∷ big_endian k n

unfoldable pub number_of : ℕ → Bytes → ℕ
number_of acc [] = acc
number_of acc (b ∷ bs) = number_of (acc * 256 + b) bs

-- a remainder by zero panics
unfoldable pub compute_list_index : (Bytes → Bytes) → ℕ → ℕ → Bytes → Run ℕ
compute_list_index hash current zero seed = panics
compute_list_index hash current (suc k) seed =
    finished (number_of 0 (hash (big_endian 8 current ++ seed)) % suc k)

unfoldable pub validator_is_in_list : Validator → List Validator → Bool
validator_is_in_list v [] = false
validator_is_in_list v (x ∷ xs) =
    let rest = validator_is_in_list v xs in if bytes_eq v.pub_key x.pub_key then true else rest

module _ (eligible : List Validator) where
  -- the endless loop of checkIndex, on fuel
  unfoldable pub check_index : ℕ → ℕ → List Validator → Run ℕ
  check_index zero proposed selected = out_of_fuel
  check_index (suc fuel) proposed selected =
      let rest = check_index fuel ((proposed + 1) % length eligible) selected in
      elim (get_elem? eligible proposed) [
        | none ↦ panics
        | some v ↦ (if validator_is_in_list v selected then rest else finished proposed)
      ]

  unfoldable pub element_at : ℕ → Run Validator
  element_at i = elim (get_elem? eligible i) [ none ↦ panics | some v ↦ finished v ]

  -- the loop of ComputeValidatorsGroup, with the number of the steps that are left
  unfoldable pub select : (Bytes → Bytes) → Bytes → ℕ → ℕ → List Validator → Run (List Validator)
  select hash seed zero i selected = finished selected
  select hash seed (suc k) i selected =
      and_then (compute_list_index hash i (length eligible) seed) (λ proposed.
        and_then (check_index (length eligible) proposed selected) (λ checked.
          and_then (element_at checked) (λ v. select hash seed k (i + 1) (selected ++ v ∷ []))))

unfoldable pub compute_validators_group :
    NodesCoordinator → Option Bytes → ℕ → ℕ → Run (List Validator)
compute_validators_group c none round shard_id = failed err_nil_randomness
compute_validators_group c (some randomness) round shard_id =
    let chosen =
      select (expand_eligible_list c.nodes_map shard_id) c.hash (seed_of round randomness)
        (group_size c shard_id) 0 [] in
    if ltb shard_id c.nb_shards
    then chosen
    else if shard_id == metachain_shard_id
    then chosen
    else failed err_invalid_shard_id

-- GetValidatorsPublicKeys and GetValidatorsRewardsAddresses
unfoldable pub get_validators_public_keys :
    NodesCoordinator → Option Bytes → ℕ → ℕ → Run (List Bytes)
get_validators_public_keys c randomness round shard_id =
    and_then (compute_validators_group c randomness round shard_id)
      (λ vs. finished (map (λ v. v.pub_key) vs))

unfoldable pub get_validators_rewards_addresses :
    NodesCoordinator → Option Bytes → ℕ → ℕ → Run (List Bytes)
get_validators_rewards_addresses c randomness round shard_id =
    and_then (compute_validators_group c randomness round shard_id)
      (λ vs. finished (map (λ v. v.address) vs))

-- the first validator with the key, over the shards in the order of the list
unfoldable pub find_key : Bytes → List Validator → Option Validator
find_key key [] = none
find_key key (v ∷ vs) =
    let rest = find_key key vs in if bytes_eq key v.pub_key then some v else rest

unfoldable pub find_in_shards : Bytes → NodesMap → Run (Validator × ℕ)
find_in_shards key [] = failed err_validator_not_found
find_in_shards key ((shard_id, vs) ∷ nodes) =
    let rest = find_in_shards key nodes in
    elim (find_key key vs) [ none ↦ rest | some v ↦ finished (v, shard_id) ]

unfoldable pub get_validator_with_public_key : NodesCoordinator → Option Bytes → Run (Validator × ℕ)
get_validator_with_public_key c none = failed err_nil_pub_key
get_validator_with_public_key c (some key) = find_in_shards key c.nodes_map

unfoldable pub indexes_of : Bytes → ℕ → List Validator → List ℕ
indexes_of key i [] = []
indexes_of key i (v ∷ vs) =
    let rest = indexes_of key (i + 1) vs in if bytes_eq key v.pub_key then i ∷ rest else rest

unfoldable pub get_validators_indexes : NodesCoordinator → List Bytes → List ℕ
get_validators_indexes c [] = []
get_validators_indexes c (key ∷ keys) =
    indexes_of key 0 (expand_eligible_list c.nodes_map c.shard_id) ++ get_validators_indexes c keys
