-- ===== src/Trie/Ops/Get.antt =====
-- tryGet of the three nodes.
use elrond_go.Prelude.{
  ℕ, zero, suc, Bool, false, Option, none, some, [], ◌∷◌, ltb, if◌then◌else◌, length, drop, take,
}
use elrond_go.Prelude.Bytes.{Bytes, bytes_eq}
use elrond_go.Trie.Node.{
  Mark, Node, leaf_node, extension_node, branch_node, absent, present, Children, Slot, Result, ok,
  err, empty_node, pos_out_of_range, panics, out_of_fuel, is_empty, get_slot, set_slot,
  is_empty_or_nil, child_pos_out_of_range,
}
use elrond_go.Trie.Ops.Resolve.{resolve_slot}

abbrev pub Got : Type 0
Got = Node × Result (Option Bytes)

abbrev pub Lookup : Type 0
Lookup = Node → Bytes → Got

abbrev got_in_branch : Children → Mark → ℕ → Bytes → Got → Got
got_in_branch cs m pos enc (n, r) = (branch_node (set_slot cs pos enc (present n)) m, r)

unfoldable pub get_in_branch : Lookup → Children → Mark → ℕ → Bytes → Result Slot → Got
get_in_branch rec cs m pos key (err e) = (branch_node cs m, err e)
get_in_branch rec cs m pos key (ok (enc, absent)) = (branch_node cs m, ok none)
get_in_branch rec cs m pos key (ok (enc, present n)) = got_in_branch cs m pos enc (rec n key)

abbrev got_in_extension : Bytes → Mark → Bytes → Got → Got
got_in_extension ekey m enc (n, r) = (extension_node ekey enc (present n) m, r)

-- a call of tryGet on a nil child panics; it is absent only if its encoding is empty too
unfoldable pub get_in_extension : Lookup → Bytes → Slot → Mark → Bytes → Result Slot → Got
get_in_extension rec ekey (e, c) m key (err x) = (extension_node ekey e c m, err x)
get_in_extension rec ekey (e, c) m key (ok (enc, absent)) = (extension_node ekey e c m, err panics)
get_in_extension rec ekey (e, c) m key (ok (enc, present n)) =
    got_in_extension ekey m enc (rec n key)

unfoldable pub starts_with : Bytes → Bytes → Bool
starts_with key prefix =
    if ltb (length key) (length prefix) then false else bytes_eq prefix (take (length prefix) key)

module _ (load : Bytes → Result Node) where
  -- the fuel bounds the depth
  unfoldable pub try_get : ℕ → Node → Bytes → Got
  try_get zero n key = (n, err out_of_fuel)
  try_get (suc f) (leaf_node lkey value m) key =
      let self = leaf_node lkey value m in
      if is_empty value
      then (self, err empty_node)
      else if bytes_eq key lkey
      then (self, ok (some value))
      else (self, ok none)
  try_get (suc f) (extension_node ekey enc c m) key =
      let self = extension_node ekey enc c m in
      let within =
        get_in_extension (try_get f) ekey (enc, c) m (drop (length ekey) key)
          (resolve_slot load (enc, c)) in
      if is_empty_or_nil self
      then (self, err empty_node)
      else if starts_with key ekey
      then within
      else (self, ok none)
  try_get (suc f) (branch_node cs m) [] =
      if is_empty_or_nil (branch_node cs m)
      then (branch_node cs m, err empty_node)
      else (branch_node cs m, ok none)
  try_get (suc f) (branch_node cs m) (pos ∷ key) =
      let self = branch_node cs m in
      let within = get_in_branch (try_get f) cs m pos key (resolve_slot load (get_slot cs pos)) in
      if is_empty_or_nil self
      then (self, err empty_node)
      else if child_pos_out_of_range pos
      then (self, err pos_out_of_range)
      else within
