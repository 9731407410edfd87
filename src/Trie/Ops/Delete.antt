-- ===== src/Trie/Ops/Delete.antt =====
-- delete of the three nodes.
use elrond_go.Prelude.{
  ℕ, zero, suc, true, false, [], ◌∷◌, ◌++◌, ltb, ◌==◌, if◌then◌else◌, length, drop,
}
use elrond_go.Prelude.Bytes.{Bytes}
use elrond_go.Trie.Key.{prefix_len}
use elrond_go.Trie.Node.{
  Mark, changed, Node, leaf_node, extension_node, branch_node, Child, absent, present, Children,
  Slot, Result, ok, err, empty_node, value_too_short, pos_out_of_range, panics, out_of_fuel,
  is_empty, new_leaf_node, new_extension_node, get_slot, set_slot, is_empty_or_nil,
  child_pos_out_of_range, get_child_position, reduce_node,
}
use elrond_go.Trie.Ops.Resolve.{Changed, resolve_slot}

abbrev reduced : Children → ℕ → Mark → Result Slot → Changed
reduced cs pos m (err e) = (branch_node cs m, err e)
reduced cs pos m (ok (enc, absent)) = (branch_node cs m, err panics)
reduced cs pos m (ok (enc, present n)) =
    (branch_node (set_slot cs pos enc (present n)) m, ok (true, present (reduce_node pos n)))

-- the end of branchNode.delete: `cs` are the children after the deletion
unfoldable pub shrink_branch : (Bytes → Result Node) → Children → Mark → Changed
unfolding resolve_slot
shrink_branch load cs m =
    let (n, pos) = get_child_position cs in
    let self = branch_node cs changed in
    let one = reduced cs pos (record m { hash = [] }) (resolve_slot load (get_slot cs pos)) in
    if n == 1 then one else (self, ok (true, present self))

-- a slot whose child is gone loses its encoding
abbrev pub after_delete : Bytes → Child → Bytes
after_delete enc absent = []
after_delete enc (present n) = enc

abbrev deleted_in_branch : (Bytes → Result Node) → Children → Mark → ℕ → Bytes → Changed → Changed
deleted_in_branch load cs m pos enc (n, err e) =
    (branch_node (set_slot cs pos enc (present n)) m, err e)
deleted_in_branch load cs m pos enc (n, ok (false, c)) =
    (branch_node (set_slot cs pos enc (present n)) m, ok (false, absent))
deleted_in_branch load cs m pos enc (n, ok (true, c)) =
    shrink_branch load (set_slot cs pos (after_delete enc c) c) m

unfoldable pub delete_in_branch :
    (Bytes → Result Node)
    → (Node → Bytes → Changed)
    → Children
    → Mark
    → ℕ
    → Bytes
    → Result Slot
    → Changed
delete_in_branch load rec cs m pos key (err e) = (branch_node cs m, err e)
delete_in_branch load rec cs m pos key (ok (enc, absent)) = (branch_node cs m, err panics)
delete_in_branch load rec cs m pos key (ok (enc, present n)) =
    deleted_in_branch load cs m pos enc (rec n key)

-- the switch at the end of extensionNode.delete
unfoldable pub join_extension : Bytes → Child → Node
unfolding new_leaf_node new_extension_node
join_extension ekey (present (leaf_node key value m)) = new_leaf_node (ekey ++ key) value
join_extension ekey (present (extension_node key enc c m)) = new_extension_node (ekey ++ key) c
join_extension ekey (present (branch_node cs m)) =
    new_extension_node ekey (present (branch_node cs m))
join_extension ekey absent = new_extension_node ekey absent

abbrev deleted_in_extension : Bytes → Mark → Bytes → Changed → Changed
deleted_in_extension ekey m enc (n, err e) = (extension_node ekey enc (present n) m, err e)
deleted_in_extension ekey m enc (n, ok (false, c)) =
    let self = extension_node ekey enc (present n) m in (self, ok (false, present self))
deleted_in_extension ekey m enc (n, ok (true, c)) =
    (extension_node ekey enc (present n) m, ok (true, present (join_extension ekey c)))

unfoldable pub delete_in_extension :
    (Node → Bytes → Changed) → Bytes → Slot → Mark → Bytes → Result Slot → Changed
delete_in_extension rec ekey (e, c) m key (err x) = (extension_node ekey e c m, err x)
delete_in_extension rec ekey (e, c) m key (ok (enc, absent)) =
    (extension_node ekey e c m, err panics)
delete_in_extension rec ekey (e, c) m key (ok (enc, present n)) =
    deleted_in_extension ekey m enc (rec n key)

module _ (load : Bytes → Result Node) where
  -- the fuel bounds the depth
  unfoldable pub delete : ℕ → Node → Bytes → Changed
  delete zero n key = (n, err out_of_fuel)
  delete (suc f) (leaf_node lkey lvalue m) key =
      let self = leaf_node lkey lvalue m in
      if prefix_len key lkey == length key
      then (self, ok (true, absent))
      else (self, ok (false, present self))
  delete (suc f) (extension_node ekey enc c m) key =
      let self = extension_node ekey enc c m in
      let within =
        delete_in_extension (delete f) ekey (enc, c) m (drop (length ekey) key)
          (resolve_slot load (enc, c)) in
      if is_empty_or_nil self
      then (self, err empty_node)
      else if is_empty key
      then (self, err value_too_short)
      else if ltb (prefix_len key ekey) (length ekey)
      then (self, ok (false, present self))
      else within
  delete (suc f) (branch_node cs m) [] =
      if is_empty_or_nil (branch_node cs m)
      then (branch_node cs m, err empty_node)
      else (branch_node cs m, err value_too_short)
  delete (suc f) (branch_node cs m) (pos ∷ key) =
      let self = branch_node cs m in
      let within =
        delete_in_branch load (delete f) cs m pos key (resolve_slot load (get_slot cs pos)) in
      if is_empty_or_nil self
      then (self, err empty_node)
      else if child_pos_out_of_range pos
      then (self, err pos_out_of_range)
      else within
