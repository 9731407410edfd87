-- ===== src/Blocks/Notarized.antt =====
-- baseProcess.go: the notarized headers of each shard (notarizedHdrs), the oldest first, and the last
-- header that was received from each shard (lastHdrs).
use elrond_go.Prelude.{
  ℕ, zero, suc, ◌+◌, ◌-◌, Bool, true, false, Option, none, some, List, [], ◌∷◌, ◌++◌, ltb,
  if◌then◌else◌, length, take, drop,
}
use elrond_go.Prelude.Maps.{lookup, insert, update_each}
use elrond_go.Blocks.Types.{
  Error, err_notarized_hdrs_slice_is_nil, err_wrong_type_assertion, Result, ok, err, unless_error,
  Header, metachain_shard_id, is_shard_content, Codec,
}
use elrond_go.Blocks.Validity.{is_hdr_construction_valid, check_header_type_correct}

-- The constructor makes the map, so the test of a nil map is not modelled.
abbrev pub HeaderLists : Type 0
HeaderLists = List (ℕ × List Header)

-- A missing key reads as a nil slice.
unfoldable pub slice_of : Option (List Header) → List Header
slice_of none = []
slice_of (some hs) = hs

unfoldable pub headers_of : ℕ → HeaderLists → List Header
headers_of i m = slice_of (lookup i m)

unfoldable pub last_of : List Header → Option Header
last_of [] = none
last_of (x ∷ xs) = let rest = last_of xs in elim rest [ none ↦ some x | some y ↦ some y ]

unfoldable pub last_notarized_hdr_for_shard : ℕ → HeaderLists → Option Header
last_notarized_hdr_for_shard i m = last_of (headers_of i m)

unfoldable pub add_last_notarized_hdr : ℕ → Header → HeaderLists → HeaderLists
add_last_notarized_hdr i h m = insert i (headers_of i m ++ h ∷ []) m

-- hdrs[:1], hdrs[:n-1] and hdrs[n-1-k:], where there is more than that
unfoldable pub to_genesis : List Header → List Header
to_genesis hs = if ltb 1 (length hs) then take 1 hs else hs

unfoldable pub without_last : List Header → List Header
without_last hs = if ltb 1 (length hs) then take (length hs - 1) hs else hs

unfoldable pub behind_final : ℕ → List Header → List Header
behind_final k hs = if ltb k (length hs) then drop (length hs - 1 - k) hs else hs

unfoldable pub for_each_shard : (List Header → List Header) → HeaderLists → HeaderLists
for_each_shard f m = update_each (λ _ hs. some (f hs)) m

unfoldable pub restore_last_notarized_hrds_to_genesis : HeaderLists → HeaderLists
restore_last_notarized_hrds_to_genesis m = for_each_shard to_genesis m

unfoldable pub remove_last_notarized : HeaderLists → HeaderLists
remove_last_notarized m = for_each_shard without_last m

unfoldable pub remove_notarized_hdrs_behind_previous_final : ℕ → HeaderLists → HeaderLists
remove_notarized_hdrs_behind_previous_final k m = for_each_shard (behind_final k) m

-- sort.Slice by the nonce
unfoldable pub insert_by_nonce : Header → List Header → List Header
insert_by_nonce h [] = h ∷ []
insert_by_nonce h (x ∷ xs) =
    let rest = insert_by_nonce h xs in if ltb x.nonce h.nonce then x ∷ rest else h ∷ x ∷ xs

unfoldable pub sort_by_nonce : List Header → List Header
sort_by_nonce [] = []
sort_by_nonce (x ∷ xs) = insert_by_nonce x (sort_by_nonce xs)

module _ (c : Codec) (number_of_shards : ℕ) where
  -- the loop of saveLastNotarizedHeader: each header is checked against the one before
  unfoldable pub check_each : ℕ → List Header → Header → Result Header
  check_each i [] last = ok last
  check_each i (h ∷ hs) last =
      let rest = check_each i hs h in
      unless_error (check_header_type_correct number_of_shards i (some h))
        (unless_error (is_hdr_construction_valid c h (some last)) rest)

  -- `none` does not pass the check of the type before it
  unfoldable pub check_from : ℕ → List Header → Option Header → Result Header
  check_from i hs none = err err_wrong_type_assertion
  check_from i hs (some last) = check_each i hs last

  unfoldable pub save_checked : ℕ → Result Header → HeaderLists → HeaderLists × Option Error
  save_checked i (ok h) m = (add_last_notarized_hdr i h m, none)
  save_checked i (err e) m = (m, some e)

  unfoldable pub save_last_notarized_header :
      ℕ → List Header → HeaderLists → HeaderLists × Option Error
  save_last_notarized_header i hs m =
      let last = last_notarized_hdr_for_shard i m in
      save_checked i
        (unless_error (check_header_type_correct number_of_shards i last)
          (check_from i (sort_by_nonce hs) last))
        m

unfoldable pub last_checked : Option Error → Option Header → Result Header
last_checked (some e) last = err e
last_checked none none = err err_wrong_type_assertion
last_checked none (some h) = ok h

unfoldable pub get_last_notarized_hdr : ℕ → ℕ → HeaderLists → Result Header
get_last_notarized_hdr number_of_shards i m =
    let last = last_notarized_hdr_for_shard i m in
    last_checked (check_header_type_correct number_of_shards i last) last

-- a header of the start, of one kind or of the other
unfoldable pub put_start : Bool → ℕ → Option Header → HeaderLists → HeaderLists × Bool
put_start is_shard i none m = (m, false)
put_start true i (some h) m =
    if is_shard_content h.content then (add_last_notarized_hdr i h m, true) else (m, false)
put_start false i (some h) m =
    if is_shard_content h.content then (m, false) else (add_last_notarized_hdr i h m, true)

-- the rest of the function, unless a header has the wrong type
unfoldable pub go_on : HeaderLists × Bool → (HeaderLists → HeaderLists × Bool) → HeaderLists × Bool
go_on (m, false) k = (m, false)
go_on (m, true) k = k m

module _ (start_headers : List (ℕ × Header)) where
  -- the loop over the shards, with the number of those that are left
  unfoldable pub put_shards : ℕ → ℕ → HeaderLists → HeaderLists × Bool
  put_shards zero i m = (m, true)
  put_shards (suc k) i m =
      go_on (put_start true i (lookup i start_headers) m) (λ m'. put_shards k (i + 1) m')

  unfoldable pub put_all : ℕ → HeaderLists × Bool
  put_all number_of_shards =
      go_on (put_shards number_of_shards 0 [])
        (λ m. put_start false metachain_shard_id (lookup metachain_shard_id start_headers) m)

unfoldable pub type_error : HeaderLists × Bool → HeaderLists × Option Error
type_error (m, true) = (m, none)
type_error (m, false) = (m, some err_wrong_type_assertion)

-- A nil map is refused before anything is set.
unfoldable pub set_last_notarized_headers_slice :
    ℕ → Option (List (ℕ × Header)) → HeaderLists → HeaderLists × Option Error
set_last_notarized_headers_slice number_of_shards none m = (m, some err_notarized_hdrs_slice_is_nil)
set_last_notarized_headers_slice number_of_shards (some start_headers) m =
    type_error (put_all start_headers number_of_shards)

-- lastHdrs: a header of an earlier round does not replace one
unfoldable pub is_earlier : Header → Option Header → Bool
is_earlier h none = false
is_earlier h (some l) = ltb h.round l.round

unfoldable pub set_last_hdr_for_shard : ℕ → Option Header → List (ℕ × Header) → List (ℕ × Header)
set_last_hdr_for_shard i none m = m
set_last_hdr_for_shard i (some h) m = if is_earlier h (lookup i m) then m else insert i h m
