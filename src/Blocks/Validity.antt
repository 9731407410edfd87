-- ===== src/Blocks/Validity.antt =====
-- baseProcess.go: checkForNils, checkBlockValidity, isHdrConstructionValid and checkHeaderTypeCorrect.
use elrond_go.Prelude.{
  ℕ, ◌≡◌, ◌+◌, ◌%◌, ◌<◌, Bool, true, false, not, Option, none, some, arith, ltb, leb, ◌==◌,
  if◌then◌else◌,
}
use elrond_go.Prelude.Bytes.{Bytes, bytes_eq, bytes_eq_iff}
use elrond_go.Prelude.Int.{two64}
use elrond_go.Blocks.Types.{
  Error, err_nil_block_chain, err_nil_block_header, err_nil_block_body,
  err_block_hash_does_not_match, err_wrong_nonce_in_block, err_lower_round_in_block,
  err_rand_seed_does_not_match, err_root_state_does_not_match, err_shard_id_missmatch,
  err_wrong_type_assertion, Result, ok, err, Header, metachain_shard_id, is_shard_content, Codec,
  header_hash,
}

-- what the chain handler answers: the current header if there is one, and the hash of the genesis
pub record Chain : Type 0 where
  pub current_block_header : Option Header
  pub genesis_header_hash : Bytes

unfoldable pub check_for_nils {ℓ} :
    {B : Type ℓ} → Option Chain → Option Header → Option B → Option Error
check_for_nils none h b = some err_nil_block_chain
check_for_nils (some ch) none b = some err_nil_block_header
check_for_nils (some ch) (some h) none = some err_nil_block_body
check_for_nils (some ch) (some h) (some b) = none

-- the hash and the seed of the header before, as the two checks below compare them
unfoldable pub check_link : Header → Header → Result Bytes → Option Error
check_link curr prev (err e) = some e
check_link curr prev (ok prev_header_hash) =
    if not (bytes_eq curr.prev_hash prev_header_hash)
    then some err_block_hash_does_not_match
    else if not (bytes_eq curr.prev_rand_seed prev.rand_seed)
    then some err_rand_seed_does_not_match
    else none

unfoldable pub check_follows : Codec → Header → Header → Option Error
check_follows c curr prev =
    if leb curr.round prev.round
    then some err_lower_round_in_block
    else if not (curr.nonce == (prev.nonce + 1) % two64)
    then some err_wrong_nonce_in_block
    else check_link curr prev (header_hash c prev)

unfoldable pub check_first : Chain → Header → Option Error
check_first ch h =
    if h.nonce == 1
    then if bytes_eq h.prev_hash ch.genesis_header_hash
      then none
      else some err_block_hash_does_not_match
    else some err_wrong_nonce_in_block

-- on arguments that are not nil
unfoldable pub check_against : Codec → Chain → Header → Option Header → Option Error
check_against c ch h none = check_first ch h
check_against c ch h (some current) = check_follows c h current

unfoldable pub check_block_validity {ℓ} :
    {B : Type ℓ} → Codec → Option Chain → Option Header → Option B → Option Error
check_block_validity c (some ch) (some h) (some b) = check_against c ch h ch.current_block_header
check_block_validity c ch h b = check_for_nils ch h b

-- the nonce 0 of the genesis, and any other nonce
unfoldable pub check_genesis : Header → Option Error
check_genesis prev =
    if not (prev.nonce == 0)
    then some err_wrong_nonce_in_block
    else elim prev.root_hash [ none ↦ none | some r ↦ some err_root_state_does_not_match ]

unfoldable pub is_hdr_construction_valid : Codec → Header → Option Header → Option Error
is_hdr_construction_valid c curr none = some err_nil_block_header
is_hdr_construction_valid c curr (some prev) =
    if curr.nonce == 0 then check_genesis prev else check_follows c curr prev

unfoldable pub check_type : Bool → Option Header → Option Error
check_type is_shard none = some err_wrong_type_assertion
check_type true (some h) =
    if is_shard_content h.content then none else some err_wrong_type_assertion
check_type false (some h) =
    if is_shard_content h.content then some err_wrong_type_assertion else none

unfoldable pub check_header_type_correct : ℕ → ℕ → Option Header → Option Error
check_header_type_correct number_of_shards shard_id h =
    if ltb shard_id number_of_shards
    then check_type true h
    else if shard_id == metachain_shard_id
    then check_type false h
    else some err_shard_id_missmatch

-- A header that was built on another one: a later round, the next nonce, its hash and its seed.
pub record Follows (c : Codec) (prev curr : Header) : Type 0 where
  pub later : prev.round < curr.round
  pub next : curr.nonce ≡ (prev.nonce + 1) % two64
  pub linked : header_hash c prev ≡ ok curr.prev_hash
  pub seeded : curr.prev_rand_seed ≡ prev.rand_seed

check_link-Follows :
    (curr prev : Header) (r : Result Bytes)
    → check_link curr prev r ≡ none
    → (r ≡ ok curr.prev_hash) × (curr.prev_rand_seed ≡ prev.rand_seed)
unfolding check_link
check_link-Follows curr prev (err e) h = cc
check_link-Follows curr prev (ok b) h =
    ground (arith, bytes_eq_iff curr.prev_hash b, bytes_eq_iff curr.prev_rand_seed prev.rand_seed)

pub check_follows-Follows :
    (c : Codec) (curr prev : Header) → check_follows c curr prev ≡ none → Follows c prev curr
unfolding check_follows
check_follows-Follows c curr prev h =
    let l : prev.round < curr.round = ground arith in
    let n : curr.nonce ≡ (prev.nonce + 1) % two64 = ground arith in
    let k : check_link curr prev (header_hash c prev) ≡ none = ground arith in
    let p = check_link-Follows curr prev (header_hash c prev) k in
    record { later = l; next = n; linked = p.0; seeded = p.1 }
