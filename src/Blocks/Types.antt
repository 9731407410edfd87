-- ===== src/Blocks/Types.antt =====
-- data/block/block.go and data/block/metaBlock.go: headers, mini-blocks, and the hash of an object
-- (core/converters.go), over a marshalizer and a hasher that are not of the repository.
use elrond_go.Prelude.{
  ℕ, ◌≡◌, refl, Bool, true, false, Option, none, some, List, [], ◌∷◌, ◌++◌, ◌==◌, if◌then◌else◌,
}
pub use elrond_go.Sharding.Coordinator.{metachain_shard_id}
use elrond_go.Prelude.Bytes.{Bytes}

pub data Error : Type 0 where
  err_nil_block_chain err_nil_block_header err_nil_block_body : Error
  err_block_hash_does_not_match err_wrong_nonce_in_block err_lower_round_in_block : Error
  err_rand_seed_does_not_match err_root_state_does_not_match : Error
  err_shard_id_missmatch err_wrong_type_assertion err_notarized_hdrs_slice_is_nil : Error
  err_header_body_mismatch err_header_not_final err_missing_header : Error
  err_nil_have_time_handler err_time_is_out err_account_state_dirty : Error
  err_cross_shard_mb_without_confirmation_from_meta : Error
  err_validator_stats_root_hash_does_not_match : Error
  -- of the marshalizer
  err_marshal : Error
  -- of another component
  external : ℕ → Error

-- a value and an error of Go, of which one is nil
pub data Result {ℓ} (A : Type ℓ) : Type ℓ where
  ok : A → Result A
  err : Error → Result A

pub ok-eq {ℓ} : {A : Type ℓ} {x y : A} → ok x ≡ ok y → x ≡ y
ok-eq h = cc

-- the rest of a function behind `if err != nil { return err }`
unfoldable pub unless_error {ℓ} : {A : Type ℓ} → Option Error → Result A → Result A
unless_error none r = r
unless_error (some e) r = err e

unfoldable pub or_else : Option Error → Option Error → Option Error
or_else none later = later
or_else (some e) later = some e

pub or_else-none : (a b : Option Error) → or_else a b ≡ none → (a ≡ none) × (b ≡ none)
unfolding or_else
or_else-none none b h = (refl, h)
or_else-none (some e) b h = cc

pub or_else_both : (a b : Option Error) → a ≡ none → b ≡ none → or_else a b ≡ none
unfolding or_else
or_else_both a b h k = rw h k

pub record MiniBlock : Type 0 where
  pub tx_hashes : List Bytes
  pub receiver_shard_id : ℕ
  pub sender_shard_id : ℕ
  pub kind : ℕ

pub record MiniBlockHeader : Type 0 where
  pub hash : Bytes
  pub sender_shard_id : ℕ
  pub receiver_shard_id : ℕ
  pub tx_count : ℕ
  pub kind : ℕ

-- the fields of ShardData that a shard reads
pub record ShardData : Type 0 where
  pub shard_id : ℕ
  pub header_hash : Bytes
  pub shard_mini_block_headers : List MiniBlockHeader

-- what a *block.Header and a *block.MetaBlock have of their own
pub data Content : Type 0 where
  shard_content :
      (shard_id : ℕ) (mini_block_headers : List MiniBlockHeader)
      → (meta_block_hashes : List Bytes) → Content
  meta_content : (shard_info : List ShardData) (mini_block_headers : List MiniBlockHeader) → Content

-- a data.HeaderHandler: what both kinds of header have, and the rest. A root hash can be a nil slice.
pub record Header : Type 0 where
  pub nonce : ℕ
  pub round : ℕ
  pub epoch : ℕ
  pub prev_hash : Bytes
  pub prev_rand_seed : Bytes
  pub rand_seed : Bytes
  pub root_hash : Option Bytes
  pub validator_stats_root_hash : Bytes
  pub content : Content

unfoldable pub shard_id_of : Content → ℕ
shard_id_of (shard_content i mbs metas) = i
shard_id_of (meta_content info mbs) = metachain_shard_id

unfoldable pub get_shard_id : Header → ℕ
get_shard_id h = shard_id_of h.content

unfoldable pub is_shard_content : Content → Bool
is_shard_content (shard_content i mbs metas) = true
is_shard_content (meta_content info mbs) = false

-- a nil slice reads as an empty one
unfoldable pub bytes_of : Option Bytes → Bytes
bytes_of none = []
bytes_of (some b) = b

-- the marshalizer, which can fail, and the hasher
pub record Codec : Type 0 where
  pub marshal_header : Header → Option Bytes
  pub marshal_mini_block : MiniBlock → Option Bytes
  pub compute : Bytes → Bytes

-- core.CalculateHash
unfoldable pub calculate_hash : (Bytes → Bytes) → Option Bytes → Result Bytes
calculate_hash compute none = err err_marshal
calculate_hash compute (some buff) = ok (compute buff)

unfoldable pub header_hash : Codec → Header → Result Bytes
header_hash c h = calculate_hash c.compute (c.marshal_header h)

unfoldable pub mini_block_hash : Codec → MiniBlock → Result Bytes
mini_block_hash c mb = calculate_hash c.compute (c.marshal_mini_block mb)

-- the mini-blocks of a list that come from another shard to one
unfoldable pub with_dst : ℕ → List MiniBlockHeader → List Bytes
with_dst dest [] = []
with_dst dest (mb ∷ mbs) =
    let rest = with_dst dest mbs in
    if mb.receiver_shard_id == dest
    then (if mb.sender_shard_id == dest then rest else mb.hash ∷ rest)
    else rest

unfoldable pub shard_info_with_dst : ℕ → List ShardData → List Bytes
shard_info_with_dst dest [] = []
shard_info_with_dst dest (d ∷ ds) =
    let rest = shard_info_with_dst dest ds in
    if d.shard_id == dest then rest else with_dst dest d.shard_mini_block_headers ++ rest

-- the keys of GetMiniBlockHeadersWithDst, of both kinds of header
unfoldable pub get_mini_block_headers_with_dst : ℕ → Content → List Bytes
get_mini_block_headers_with_dst dest (shard_content i mbs metas) = with_dst dest mbs
get_mini_block_headers_with_dst dest (meta_content info mbs) =
    shard_info_with_dst dest info ++ with_dst dest mbs
