-- ===== src/Blocks/Current.antt =====
-- baseProcess.go and shardblock.go: the headers for the current block (hdrsForCurrBlock) and the meta
-- headers that are requested for it.
use elrond_go.Prelude.{
  ℕ, zero, suc, ◌+◌, ◌-◌, ◌%◌, ◌^◌, Bool, true, false, not, Option, none, some, List, [], ◌∷◌, ◌++◌,
  ltb, ◌==◌, if◌then◌else◌,
}
use elrond_go.Prelude.Bytes.{Bytes}
use elrond_go.Prelude.Maps.{lookup, insert}
use elrond_go.Prelude.Keyed.{lookup_at, insert_at}
use elrond_go.Blocks.Types.{Header, get_shard_id, metachain_shard_id, is_shard_content}
use elrond_go.Blocks.Notarized.{HeaderLists, sort_by_nonce}
use elrond_go.Blocks.Processed.{ProcessedMiniBlocks}

-- hdrInfo: the header is nil while it is missing
pub record HdrInfo : Type 0 where
  pub used_in_block : Bool
  pub hdr : Option Header

pub record HdrForBlock : Type 0 where
  pub missing_hdrs : ℕ
  pub missing_finality_attesting_hdrs : ℕ
  pub highest_hdr_nonce : List (ℕ × ℕ)
  pub hdr_hash_and_info : List (Bytes × HdrInfo)

-- the cache of the meta blocks, and the hash of the meta block of each nonce
pub record MetaPool : Type 0 where
  pub meta_blocks : List (Bytes × Header)
  pub headers_nonces : List (ℕ × Bytes)

pub record Shard : Type 0 where
  pub current : HdrForBlock
  pub pool : MetaPool
  pub last_hdrs : List (ℕ × Header)
  pub notarized_hdrs : HeaderLists
  pub processed_mini_blocks : ProcessedMiniBlocks

-- on uint32
unfoldable pub up32 : ℕ → ℕ
up32 n = (n + 1) % 2 ^ 32

unfoldable pub down32 : ℕ → ℕ
down32 n = (n + (2 ^ 32 - 1)) % 2 ^ 32

-- resetMissingHdrs and createBlockStarted, without the call of the transaction coordinator
unfoldable pub reset_missing_hdrs : HdrForBlock → HdrForBlock
reset_missing_hdrs d = record d { missing_hdrs = 0; missing_finality_attesting_hdrs = 0 }

unfoldable pub create_block_started : HdrForBlock → HdrForBlock
create_block_started d = record (reset_missing_hdrs d) {
  hdr_hash_and_info = [];
  highest_hdr_nonce = [];
}

-- GetMetaHeaderFromPool: a header of the other kind is an error
unfoldable pub as_meta : Option Header → Option Header
as_meta none = none
as_meta (some h) = if is_shard_content h.content then none else some h

unfoldable pub get_meta_header_from_pool : Bytes → MetaPool → Option Header
get_meta_header_from_pool hash p = as_meta (lookup_at hash p.meta_blocks)

unfoldable pub found_at : Option Header → Bytes → Option (Bytes × Header)
found_at none hash = none
found_at (some h) hash = some (hash, h)

unfoldable pub found_by : Option Bytes → MetaPool → Option (Bytes × Header)
found_by none p = none
found_by (some hash) p = found_at (get_meta_header_from_pool hash p) hash

unfoldable pub get_meta_header_from_pool_with_nonce : ℕ → MetaPool → Option (Bytes × Header)
get_meta_header_from_pool_with_nonce nonce p = found_by (lookup nonce p.headers_nonces) p

-- the loop over the cache, in the order of its keys
unfoldable pub headers_with_nonce : ℕ → ℕ → List (Bytes × Header) → List (Bytes × Header)
headers_with_nonce shard_id nonce [] = []
headers_with_nonce shard_id nonce ((hash, h) ∷ m) =
    let rest = headers_with_nonce shard_id nonce m in
    if get_shard_id h == shard_id
    then (if h.nonce == nonce then (hash, h) ∷ rest else rest)
    else rest

unfoldable pub one_more : Option (Bytes × Header) → List (Bytes × Header)
one_more none = []
one_more (some x) = x ∷ []

unfoldable pub get_headers_from_pools : MetaPool → ℕ → ℕ → List (Bytes × Header)
get_headers_from_pools p shard_id nonce =
    headers_with_nonce shard_id nonce p.meta_blocks
    ++ one_more (get_meta_header_from_pool_with_nonce nonce p)

unfoldable pub put_attesting :
    List (Bytes × Header) → List (Bytes × HdrInfo) → List (Bytes × HdrInfo)
put_attesting [] m = m
put_attesting ((hash, h) ∷ hs) m =
    put_attesting hs (insert_at hash (record { used_in_block = false; hdr = some h }) m)

unfoldable pub is_empty {ℓ} : {A : Type ℓ} → List A → Bool
is_empty [] = true
is_empty (x ∷ xs) = false

unfoldable pub nonce_or_zero : Option ℕ → ℕ
nonce_or_zero none = 0
nonce_or_zero (some n) = n

-- The loop over the nonces behind the highest one, with the number of those that are left, the
-- number of those that are missing so far, and the map.
unfoldable pub request_attesting :
    MetaPool → ℕ → ℕ → ℕ → List (Bytes × HdrInfo) → ℕ × List (Bytes × HdrInfo)
request_attesting p zero nonce missing m = (missing, m)
request_attesting p (suc k) nonce missing m =
    let found = get_headers_from_pools p metachain_shard_id nonce in
    request_attesting p k (nonce + 1) (if is_empty found then up32 missing else missing)
      (put_attesting found m)

unfoldable pub with_attesting : ℕ × List (Bytes × HdrInfo) → HdrForBlock → HdrForBlock
with_attesting (missing, m) d = record d {
  missing_finality_attesting_hdrs = missing;
  hdr_hash_and_info = m;
}

-- requestMissingFinalityAttestingHeaders, and the assignment of what it returns
unfoldable pub request_missing_finality_attesting_headers : MetaPool → ℕ → HdrForBlock → HdrForBlock
request_missing_finality_attesting_headers p finality d =
    let highest = nonce_or_zero (lookup metachain_shard_id d.highest_hdr_nonce) in
    let nothing = record d { missing_finality_attesting_hdrs = 0 } in
    if highest == 0
    then nothing
    else with_attesting (request_attesting p finality (highest + 1) 0 d.hdr_hash_and_info) d

unfoldable pub raise_highest : Header → HdrForBlock → HdrForBlock
raise_highest h d =
    if ltb (nonce_or_zero (lookup metachain_shard_id d.highest_hdr_nonce)) h.nonce
    then record d { highest_hdr_nonce = insert metachain_shard_id h.nonce d.highest_hdr_nonce }
    else d

unfoldable pub put_used : Bytes → Option Header → HdrForBlock → HdrForBlock
put_used hash h d = record d {
  hdr_hash_and_info = insert_at hash (record { used_in_block = true; hdr = h }) d.hdr_hash_and_info;
}

-- one hash of computeMissingAndExistingMetaHeaders
unfoldable pub note_meta : Bytes → Option Header → HdrForBlock → HdrForBlock
note_meta hash none d = record d { missing_hdrs = up32 d.missing_hdrs }
note_meta hash (some h) d = raise_highest h (put_used hash (some h) d)

unfoldable pub compute_missing_and_existing : MetaPool → List Bytes → HdrForBlock → HdrForBlock
compute_missing_and_existing p [] d = d
compute_missing_and_existing p (hash ∷ hashes) d =
    compute_missing_and_existing p hashes (note_meta hash (get_meta_header_from_pool hash p) d)

unfoldable pub is_missing : MetaPool → Bytes → Bool
is_missing p hash = elim (get_meta_header_from_pool hash p) [ none ↦ true | some h ↦ false ]

-- the hashes that the loop returns
unfoldable pub missing_headers_hashes : MetaPool → List Bytes → List Bytes
missing_headers_hashes p [] = []
missing_headers_hashes p (hash ∷ hashes) =
    let rest = missing_headers_hashes p hashes in if is_missing p hash then hash ∷ rest else rest

unfoldable pub put_missing : List Bytes → HdrForBlock → HdrForBlock
put_missing [] d = d
put_missing (hash ∷ hashes) d = put_missing hashes (put_used hash none d)

unfoldable pub request_if_none_missing : MetaPool → ℕ → HdrForBlock → HdrForBlock
request_if_none_missing p finality d =
    if d.missing_hdrs == 0 then request_missing_finality_attesting_headers p finality d else d

-- requestMetaHeaders: what was requested is left in the two counters
unfoldable pub request_meta_headers : MetaPool → ℕ → List Bytes → HdrForBlock → HdrForBlock
request_meta_headers p finality [] d = d
request_meta_headers p finality (hash ∷ hashes) d = request_if_none_missing p finality (
    put_missing (missing_headers_hashes p (hash ∷ hashes))
      (compute_missing_and_existing p (hash ∷ hashes) d))

-- sortHeadersForCurrentBlockByNonce, for one shard; every header is there by then
unfoldable pub headers_for_block : Bool → ℕ → List (Bytes × HdrInfo) → List Header
headers_for_block used shard_id [] = []
headers_for_block used shard_id ((hash, i) ∷ m) =
    let rest = headers_for_block used shard_id m in
    elim i.hdr [
      | none ↦ rest
      | some h ↦
          (if (if used then i.used_in_block else not i.used_in_block)
            then (if get_shard_id h == shard_id then h ∷ rest else rest)
            else rest)
    ]

unfoldable pub sort_headers_for_current_block_by_nonce : Bool → ℕ → HdrForBlock → List Header
sort_headers_for_current_block_by_nonce used shard_id d =
    sort_by_nonce (headers_for_block used shard_id d.hdr_hash_and_info)
