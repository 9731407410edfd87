-- ===== src/Trie/Ops/Insert.antt =====
-- insert of the three nodes.
use elrond_go.Prelude.{
  ℕ, zero, suc, true, false, ◌||◌, none, some, [], ◌∷◌, ◌==◌, if◌then◌else◌, length, drop, take,
  get_elem?,
}
use elrond_go.Prelude.Bytes.{Bytes, bytes_eq}
use elrond_go.Trie.Key.{prefix_len}
use elrond_go.Trie.Node.{
  Mark, changed, Node, leaf_node, extension_node, branch_node, Child, absent, present, Children,
  Slot, Result, ok, err, empty_node, value_too_short, pos_out_of_range, panics, out_of_fuel,
  is_empty, new_leaf_node, new_extension_node, no_children, get_slot, set_slot, is_empty_or_nil,
  child_pos_out_of_range,
}
use elrond_go.Trie.Ops.Resolve.{Change, Changed, resolve_slot}

-- how a leaf splits from a new key: the second half of leafNode.insert
unfoldable pub split_leaf : Bytes → Bytes → Bytes → Bytes → Result Change
split_leaf old_key old_value key value =
    let len = prefix_len key old_key in
    elim (get_elem? old_key len) [
      | none ↦ err panics
      | some old_pos ↦ elim (get_elem? key len) [
        | none ↦ err panics
        | some new_pos ↦
            if child_pos_out_of_range old_pos || child_pos_out_of_range new_pos
            then err pos_out_of_range
            else let branch =
                branch_node
                  (set_slot
                    (set_slot no_children old_pos []
                      (present (new_leaf_node (drop (suc len) old_key) old_value)))
                    new_pos [] (present (new_leaf_node (drop (suc len) key) value)))
                  changed in
              ok (
                true,
                present (
                    if len == 0
                    then branch
                    else new_extension_node (take len old_key) (present branch)),
              )
      ]
    ]

-- how an extension splits: the second half of extensionNode.insert
unfoldable pub split_extension : Bytes → Child → Bytes → Bytes → Result Change
split_extension old_key child key value =
    let len = prefix_len key old_key in
    elim (get_elem? old_key len) [
      | none ↦ err panics
      | some old_pos ↦ elim (get_elem? key len) [
        | none ↦ err panics
        | some new_pos ↦
            if child_pos_out_of_range old_pos || child_pos_out_of_range new_pos
            then err pos_out_of_range
            else let following = drop (suc len) old_key in
              let old_child =
                if is_empty following
                then child
                else present (new_extension_node following child) in
              let branch =
                branch_node
                  (set_slot (set_slot no_children old_pos [] old_child) new_pos []
                    (present (new_leaf_node (drop (suc len) key) value)))
                  changed in
              ok (
                true,
                present (
                    if len == 0
                    then branch
                    else new_extension_node (take len old_key) (present branch)),
              )
      ]
    ]

abbrev inserted_in_branch : Children → Mark → ℕ → Bytes → Changed → Changed
inserted_in_branch cs m pos enc (n, err e) =
    (branch_node (set_slot cs pos enc (present n)) m, err e)
inserted_in_branch cs m pos enc (n, ok (false, c)) =
    let self = branch_node (set_slot cs pos enc (present n)) m in (self, ok (false, present self))
inserted_in_branch cs m pos enc (n, ok (true, c)) =
    let self = branch_node (set_slot cs pos enc c) changed in (self, ok (true, present self))

unfoldable pub insert_in_branch :
    (Node → Bytes → Bytes → Changed) → Children → Mark → ℕ → Bytes → Bytes → Result Slot → Changed
unfolding new_leaf_node
insert_in_branch rec cs m pos key value (err e) = (branch_node cs m, err e)
insert_in_branch rec cs m pos key value (ok (enc, absent)) =
    let self = branch_node (set_slot cs pos enc (present (new_leaf_node key value))) changed in
    (self, ok (true, present self))
insert_in_branch rec cs m pos key value (ok (enc, present n)) =
    inserted_in_branch cs m pos enc (rec n key value)

abbrev inserted_in_extension : Bytes → Mark → Bytes → Changed → Changed
inserted_in_extension ekey m enc (n, err e) = (extension_node ekey enc (present n) m, err e)
inserted_in_extension ekey m enc (n, ok (false, c)) =
    (extension_node ekey enc (present n) m, ok (false, absent))
inserted_in_extension ekey m enc (n, ok (true, c)) =
    (extension_node ekey enc (present n) m, ok (true, present (new_extension_node ekey c)))

unfoldable pub insert_in_extension :
    (Node → Bytes → Bytes → Changed) → Bytes → Slot → Mark → Bytes → Bytes → Result Slot → Changed
insert_in_extension rec ekey (e, c) m key value (err x) = (extension_node ekey e c m, err x)
insert_in_extension rec ekey (e, c) m key value (ok (enc, absent)) =
    let split = split_extension ekey absent key value in
    if prefix_len key ekey == length ekey
    then (extension_node ekey enc absent m, err panics)
    else (extension_node ekey enc absent m, split)
insert_in_extension rec ekey (e, c) m key value (ok (enc, present n)) =
    let within = inserted_in_extension ekey m enc (rec n (drop (prefix_len key ekey) key) value) in
    let split = split_extension ekey (present n) key value in
    if prefix_len key ekey == length ekey
    then within
    else (extension_node ekey enc (present n) m, split)

module _ (load : Bytes → Result Node) where
  -- the fuel bounds the depth
  unfoldable pub insert : ℕ → Node → Bytes → Bytes → Changed
  insert zero n key value = (n, err out_of_fuel)
  insert (suc f) (leaf_node lkey lvalue m) key value =
      let self = leaf_node lkey value changed in
      if is_empty lvalue
      then (leaf_node lkey lvalue m, err empty_node)
      else if bytes_eq key lkey
      then (self, ok (true, present self))
      else (leaf_node lkey lvalue m, split_leaf lkey lvalue key value)
  insert (suc f) (extension_node ekey enc c m) key value =
      let self = extension_node ekey enc c m in
      let within =
        insert_in_extension (insert f) ekey (enc, c) m key value (resolve_slot load (enc, c)) in
      if is_empty_or_nil self then (self, err empty_node) else within
  insert (suc f) (branch_node cs m) [] value =
      if is_empty_or_nil (branch_node cs m)
      then (branch_node cs m, err empty_node)
      else (branch_node cs m, err value_too_short)
  insert (suc f) (branch_node cs m) (pos ∷ key) value =
      let self = branch_node cs m in
      let within =
        insert_in_branch (insert f) cs m pos key value (resolve_slot load (get_slot cs pos)) in
      if is_empty_or_nil self
      then (self, err empty_node)
      else if child_pos_out_of_range pos
      then (self, err pos_out_of_range)
      else within
