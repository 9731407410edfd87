-- ===== src/Sharding/Coordinator.antt =====
-- multiShardCoordinator.go and core/address.go: to which shard an address belongs. A mask is kept
-- as the number of its ones n: an AND with (1 << n) - 1 is the remainder by 2 ^ n.
use elrond_go.Prelude.{
  ℕ, zero, suc, ◌+◌, ◌-◌, ◌*◌, ◌/◌, ◌%◌, ◌^◌, ◌≡◌, refl, inl, inr, Bool, true, false, not, ◌&&◌,
  Option, none, some, [], ◌∷◌, ◌++◌, arith, ltb, leb, ◌==◌, ==_iff, if◌then◌else◌, Bool-cases,
  length, drop, take,
}
use elrond_go.Prelude.Bytes.{Bytes, bytes_eq}

abbrev pub two32 : ℕ
two32 = 4294967296

abbrev pub metachain_shard_id : ℕ
metachain_shard_id = 4294967295

abbrev num_init_characters_for_sc_address : ℕ
num_init_characters_for_sc_address = 10

abbrev num_init_characters_for_on_metachain_sc : ℕ
num_init_characters_for_on_metachain_sc = 5

abbrev vm_type_len : ℕ
vm_type_len = 2

unfoldable pub zeros : ℕ → Bytes
zeros zero = []
zeros (suc n) = 0 ∷ zeros n

unfoldable pub is_smart_contract_address : Bytes → Bool
unfolding zeros bytes_eq
is_smart_contract_address rcv =
    if leb (length rcv) num_init_characters_for_sc_address
    then false
    else if bytes_eq rcv (zeros (length rcv))
    then true
    else bytes_eq (take (num_init_characters_for_sc_address - vm_type_len) rcv)
        (zeros (num_init_characters_for_sc_address - vm_type_len))

unfoldable pub is_metachain_identifier : Bytes → Bool
is_metachain_identifier [] = true
is_metachain_identifier (b ∷ bs) =
    let rest = is_metachain_identifier bs in if b == 255 then rest else false

unfoldable pub is_smart_contract_on_metachain : Bytes → Bytes → Bool
unfolding is_metachain_identifier is_smart_contract_address zeros bytes_eq
is_smart_contract_on_metachain identifier rcv =
    if leb (length rcv)
      (num_init_characters_for_sc_address + num_init_characters_for_on_metachain_sc)
    then false
    else if not (is_metachain_identifier identifier)
    then false
    else if not (is_smart_contract_address rcv)
    then false
    else bytes_eq
        (take num_init_characters_for_on_metachain_sc (drop num_init_characters_for_sc_address rcv))
        (zeros num_init_characters_for_on_metachain_sc)

pub record MultiShardCoordinator : Type 0 where
  pub mask_high : ℕ
  pub mask_low : ℕ
  pub self_id : ℕ
  pub number_of_shards : ℕ

-- math.Ceil(math.Log2(n)): the first of `k`, `k + 1`, ... whose power of two is not below n
unfoldable pub ceil_log2_from : ℕ → ℕ → ℕ → ℕ
ceil_log2_from zero k n = k
ceil_log2_from (suc f) k n =
    let rest = ceil_log2_from f (suc k) n in if leb n (2 ^ k) then k else rest

-- of a uint32
unfoldable pub ceil_log2 : ℕ → ℕ
unfolding ceil_log2_from
ceil_log2 n = ceil_log2_from 32 0 n

-- the numbers of ones in the two masks; with one shard the low mask is not used
unfoldable pub calculate_masks : ℕ → ℕ × ℕ
unfolding ceil_log2
calculate_masks n = (ceil_log2 n, ceil_log2 n - 1)

-- `none` where the number of shards or the own shard is refused
unfoldable pub new_multi_shard_coordinator : ℕ → ℕ → Option MultiShardCoordinator
unfolding calculate_masks
new_multi_shard_coordinator number_of_shards self_id =
    if ltb number_of_shards 1
    then none
    else if leb number_of_shards self_id && not (self_id == metachain_shard_id)
    then none
    else some (record {
      mask_high = (calculate_masks number_of_shards).0;
      mask_low = (calculate_masks number_of_shards).1;
      self_id = self_id;
      number_of_shards = number_of_shards;
    })

-- the loop over the last bytes, as a uint32
unfoldable pub address_number : ℕ → Bytes → ℕ
address_number addr [] = addr
address_number addr (b ∷ bs) = address_number ((addr * 256 + b) % two32) bs

unfoldable pub buff_needed : ℕ → Bytes → Bytes
buff_needed number_of_shards address =
    let bytes_need = number_of_shards / 256 + 1 in
    if ltb bytes_need (length address) then drop (length address - bytes_need) address else address

unfoldable pub compute_id : MultiShardCoordinator → Bytes → ℕ
unfolding buff_needed address_number is_smart_contract_on_metachain
compute_id msc address =
    let buff = buff_needed msc.number_of_shards address in
    let addr = address_number 0 buff in
    let shard = addr % 2 ^ msc.mask_high in
    if is_smart_contract_on_metachain buff address
    then metachain_shard_id
    else if ltb (msc.number_of_shards - 1) shard
    then addr % 2 ^ msc.mask_low
    else shard

unfoldable pub same_shard : MultiShardCoordinator → Bytes → Bytes → Bool
unfolding compute_id bytes_eq
same_shard msc a b = if bytes_eq a b then true else compute_id msc a == compute_id msc b

-- the identifiers, with the print of a shard's number left open
module _ (shard_id_to_string : ℕ → Bytes) where
  unfoldable pub communication_identifier_between_shards : ℕ → ℕ → Bytes
  communication_identifier_between_shards a b =
      if a == b
      then shard_id_to_string a
      else if ltb a b
      then shard_id_to_string a ++ shard_id_to_string b
      else shard_id_to_string b ++ shard_id_to_string a

-- The identifier of the channel between two shards does not depend on which of them asks.
pub communication_identifier_between_shards_comm :
    (print : ℕ → Bytes) (a b : ℕ)
    → communication_identifier_between_shards print a b
      ≡ communication_identifier_between_shards print b a
unfolding communication_identifier_between_shards
communication_identifier_between_shards_comm print a b = elim (Bool-cases (a == b)) [
  | inl t ↦ rw ((==_iff a b).0 t) refl
  | inr t ↦ elim (Bool-cases (ltb a b)) [
    | inl u ↦
        let t' : (b == a) ≡ false = ground (arith, t) in
        let u' : ltb b a ≡ false = ground (arith, u) in rw (t, u, t', u') refl
    | inr u ↦
        let t' : (b == a) ≡ false = ground (arith, t) in
        let u' : ltb b a ≡ true = ground (arith, t, u) in rw (t, u, t', u') refl
  ]
]
