-- ===== src/Blocks/Processed.antt =====
-- shardblock.go: the mini-blocks of each meta block that the shard has processed
-- (processedMiniBlocks), as map[string]map[string]struct{}.
use elrond_go.Prelude.{Bool, false, Option, none, some, List, [], ◌∷◌, if◌then◌else◌}
use elrond_go.Prelude.Bytes.{Bytes, bytes_eq}
use elrond_go.Prelude.Keyed.{is_in, lookup_at, insert_at, delete_at}

abbrev pub ProcessedMiniBlocks : Type 0
ProcessedMiniBlocks = List (Bytes × List Bytes)

-- m[key] = struct{}{} and delete(m, key), of the inner map
unfoldable pub with_key : Bytes → List Bytes → List Bytes
with_key b bs = if is_in b bs then bs else b ∷ bs

unfoldable pub without_key : Bytes → List Bytes → List Bytes
without_key b [] = []
without_key b (x ∷ xs) = let rest = without_key b xs in if bytes_eq x b then rest else x ∷ rest

unfoldable pub added_to : Bytes → Option (List Bytes) → List Bytes
added_to b none = b ∷ []
added_to b (some bs) = with_key b bs

unfoldable pub add_processed_mini_block : Bytes → Bytes → ProcessedMiniBlocks → ProcessedMiniBlocks
add_processed_mini_block meta b s = insert_at meta (added_to b (lookup_at meta s)) s

-- An inner map that is empty goes.
unfoldable pub keep_filled : Bytes → List Bytes → ProcessedMiniBlocks → ProcessedMiniBlocks
keep_filled meta [] rest = rest
keep_filled meta (x ∷ xs) rest = (meta, x ∷ xs) ∷ rest

unfoldable pub remove_processed_mini_block : Bytes → ProcessedMiniBlocks → ProcessedMiniBlocks
remove_processed_mini_block b [] = []
remove_processed_mini_block b ((meta, bs) ∷ s) =
    keep_filled meta (without_key b bs) (remove_processed_mini_block b s)

unfoldable pub remove_all_processed_mini_blocks : Bytes → ProcessedMiniBlocks → ProcessedMiniBlocks
remove_all_processed_mini_blocks meta s = delete_at meta s

-- the range over another such map
unfoldable pub apply_processed_mini_blocks :
    ProcessedMiniBlocks → ProcessedMiniBlocks → ProcessedMiniBlocks
apply_processed_mini_blocks [] s = s
apply_processed_mini_blocks ((meta, bs) ∷ ps) s =
    insert_at meta bs (apply_processed_mini_blocks ps s)

unfoldable pub hashes_of : Option (List Bytes) → List Bytes
hashes_of none = []
hashes_of (some bs) = bs

unfoldable pub get_processed_mini_blocks_hashes : Bytes → ProcessedMiniBlocks → List Bytes
get_processed_mini_blocks_hashes meta s = hashes_of (lookup_at meta s)

unfoldable pub is_processed_in : Bytes → Option (List Bytes) → Bool
is_processed_in b none = false
is_processed_in b (some bs) = is_in b bs

unfoldable pub is_mini_block_processed : Bytes → Bytes → ProcessedMiniBlocks → Bool
is_mini_block_processed meta b s = is_processed_in b (lookup_at meta s)
