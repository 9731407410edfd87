-- ===== src/Trie/Tests.antt =====
-- Small tries: the operations on them, and the theorems at them.
use elrond_go.Prelude.{◌≡◌, refl, ◌⊎◌, none, some, [], ◌∷◌, arith, if◌then◌else◌}
use elrond_go.Prelude.Bytes.{Bytes, bytes_eq}
use elrond_go.Prelude.Maps.{All}
use elrond_go.Trie.Key.{
  IsByte, hex_to_key_bytes, key_bytes_to_hex, prefix_len, hex_to_key_bytes-key_bytes_to_hex,
}
use elrond_go.Trie.Node.{
  changed, Node, branch_node, leaf_node, Child, absent, present, Children, Result, ok, err, panics,
  load_error, is_empty, is_absent, new_leaf_node, new_extension_node, empty_children, no_children,
  get_slot, set_slot, is_slot_empty, are_all_empty, is_empty_or_nil, child_pos_out_of_range,
}
use elrond_go.Trie.Ops.Resolve.{resolve_slot}
use elrond_go.Trie.Ops.Insert.{
  split_leaf, split_extension, insert_in_branch, insert_in_extension, insert,
}
use elrond_go.Trie.Ops.Delete.{delete_in_branch, delete}
use elrond_go.Trie.Map.{find, strip}
use elrond_go.Trie.Pair.{pair}
use elrond_go.Trie.Root.{get, remove, update, put}
use elrond_go.Trie.Build.{IsRoot, nil_root, entries, get-entries, update-IsRoot, get-update}
use elrond_go.Trie.Erase.{remove-IsRoot, get-remove, remove-unbound_branch}

-- an empty database
abbrev load : Bytes → Result Node
load hash = err (load_error 0)

abbrev dog : Bytes
dog = 100 ∷ 111 ∷ []

abbrev doe : Bytes
doe = 100 ∷ 101 ∷ []

abbrev cat : Bytes
cat = 35 ∷ []

abbrev one : Child
one = (update load absent dog (1 ∷ [])).0

abbrev two : Child
two = (update load one doe (2 ∷ [])).0

dog_ok : All IsByte dog
dog_ok = (omega arith, (omega arith, tt))

doe_ok : All IsByte doe
doe_ok = (omega arith, (omega arith, tt))

cat_ok : All IsByte cat
cat_ok = (omega arith, tt)

hex_to_key_bytes-key_bytes_to_hex_example : hex_to_key_bytes (key_bytes_to_hex dog) ≡ some dog
hex_to_key_bytes-key_bytes_to_hex_example = hex_to_key_bytes-key_bytes_to_hex dog dog_ok

one-IsRoot : IsRoot one
one-IsRoot = (update-IsRoot load absent dog (1 ∷ []) nil_root dog_ok (unfold is_empty in refl)).1

two-IsRoot : IsRoot two
two-IsRoot = (update-IsRoot load one doe (2 ∷ []) one-IsRoot doe_ok (unfold is_empty in refl)).1

update-IsRoot_example : ((update load one doe (2 ∷ [])).1 ≡ none) × IsRoot two
update-IsRoot_example =
    update-IsRoot load one doe (2 ∷ []) one-IsRoot doe_ok (unfold is_empty in refl)

get-update_example :
    (get load two dog).1 ≡ (if bytes_eq dog doe then ok (some (2 ∷ [])) else (get load one dog).1)
get-update_example =
    get-update load one doe (2 ∷ []) one-IsRoot doe_ok (unfold is_empty in refl) dog dog_ok

get-entries_example : get load two dog ≡ (two, ok (entries two dog))
get-entries_example = get-entries load two dog two-IsRoot dog_ok

dog_is_bound : entries two dog ≡ some (1 ∷ [])
unfolding entries update put insert insert_in_extension insert_in_branch resolve_slot split_leaf
    split_extension key_bytes_to_hex is_empty new_leaf_node new_extension_node bytes_eq prefix_len
    child_pos_out_of_range no_children empty_children set_slot get_slot find strip is_empty_or_nil
dog_is_bound = refl

remove-IsRoot_example : ((remove load two dog).1 ≡ none) × IsRoot (remove load two dog).0
remove-IsRoot_example = remove-IsRoot load dog dog_ok two (1 ∷ []) two-IsRoot dog_is_bound

get-remove_example :
    (get load (remove load two dog).0 doe).1
    ≡ (if bytes_eq doe dog then ok none else (get load two doe).1)
get-remove_example = get-remove load dog dog_ok two (1 ∷ []) two-IsRoot dog_is_bound doe doe_ok

-- a root with two leaves below it
abbrev leaves : Children
leaves =
    pair 6 2 (present (leaf_node (4 ∷ 6 ∷ 15 ∷ 16 ∷ []) (1 ∷ []) changed))
      (present (leaf_node (3 ∷ 16 ∷ []) (9 ∷ []) changed))

branched : (update load one cat (9 ∷ [])).0 ≡ present (branch_node leaves changed)
unfolding update put insert split_leaf key_bytes_to_hex is_empty new_leaf_node bytes_eq prefix_len
    child_pos_out_of_range
branched = refl

leaves-IsRoot : IsRoot (present (branch_node leaves changed))
leaves-IsRoot =
    rw branched at
      (update-IsRoot load one cat (9 ∷ []) one-IsRoot cat_ok (unfold is_empty in refl)).1

doe_is_unbound : entries (present (branch_node leaves changed)) doe ≡ none
unfolding entries key_bytes_to_hex find bytes_eq no_children empty_children set_slot
doe_is_unbound = refl

remove-unbound_branch_example :
    ((remove load (present (branch_node leaves changed)) doe).1 ≡ some panics)
    ⊎ (remove load (present (branch_node leaves changed)) doe ≡ (absent, none))
remove-unbound_branch_example =
    remove-unbound_branch load doe doe_ok leaves changed leaves-IsRoot doe_is_unbound

-- both leaves are lost
whole_trie_is_lost : remove load (present (branch_node leaves changed)) doe ≡ (absent, none)
unfolding remove delete delete_in_branch resolve_slot key_bytes_to_hex prefix_len get_slot set_slot
    no_children empty_children is_empty_or_nil are_all_empty is_slot_empty is_absent is_empty
    child_pos_out_of_range
whole_trie_is_lost = refl
