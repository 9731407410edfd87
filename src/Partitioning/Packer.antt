-- ===== src/Partitioning/Packer.antt =====
-- simpleDataPacker.go and dataSplit.go. A nil slice of data is `none`, and so is an error. The
-- marshalizer is a parameter: `none` where it fails.
use elrond_go.Prelude.{
  ℕ, suc, ◌+◌, ◌%◌, Bool, true, false, ◌&&◌, Option, none, some, List, [], ◌∷◌, ◌++◌, ltb, leb,
  ◌==◌, if◌then◌else◌, length,
}
use elrond_go.Prelude.Bytes.{Bytes}

abbrev pub minimum_max_packet_size_in_bytes : ℕ
minimum_max_packet_size_in_bytes = 1

abbrev pub minimum_max_packet_num : ℕ
minimum_max_packet_num = 1

abbrev pub has_some : List Bytes → Bool
has_some [] = false
has_some (x ∷ xs) = true

abbrev pub prepend : Bytes → Option (List Bytes) → Option (List Bytes)
prepend b none = none
prepend b (some bs) = some (b ∷ bs)

-- a chunk whose error is dropped is nil
abbrev pub or_nil : Option Bytes → Bytes
or_nil none = []
or_nil (some b) = b

module _ (marshal : List Bytes → Option Bytes) (limit : ℕ) where
  -- what is left at the end of the loop
  unfoldable pub last_chunk : List Bytes → Option (List Bytes)
  last_chunk current =
      let marshaled : Option (List Bytes) = elim (marshal current) [
        | none ↦ none
        | some b ↦ some (b ∷ [])
      ] in
      if has_some current then marshaled else some []

  -- the loop, with the current chunk and its length in bytes
  unfoldable pub pack_loop : List Bytes → List Bytes → ℕ → Option (List Bytes)
  unfolding last_chunk
  pack_loop [] current len = last_chunk current
  pack_loop (e ∷ es) current len =
      let fresh = prepend (or_nil (marshal current)) (pack_loop es (e ∷ []) (length e)) in
      let more = pack_loop es (current ++ e ∷ []) (len + length e) in
      if leb limit (len + length e) && has_some current then fresh else more

  unfoldable pub pack_data_in_chunks : Option (List Bytes) → Option (List Bytes)
  unfolding pack_loop
  pack_data_in_chunks none = none
  pack_data_in_chunks (some elements) =
      let packed = pack_loop elements [] 0 in
      if ltb limit minimum_max_packet_size_in_bytes then none else packed

-- the loop of SplitDataInChunks, with the index and the current chunk
unfoldable pub split_loop : ℕ → ℕ → List Bytes → List Bytes → List (List Bytes)
split_loop limit idx [] current = if has_some current then current ∷ [] else []
split_loop limit idx (e ∷ es) current =
    let fresh = split_loop limit (suc idx) es [] in
    let more = split_loop limit (suc idx) es (current ++ e ∷ []) in
    if (idx + 1) % limit == 0 then (current ++ e ∷ []) ∷ fresh else more

unfoldable pub split_data_in_chunks : ℕ → Option (List Bytes) → Option (List (List Bytes))
unfolding split_loop
split_data_in_chunks limit none = none
split_data_in_chunks limit (some elements) =
    if ltb limit minimum_max_packet_num then none else some (split_loop limit 0 elements [])
