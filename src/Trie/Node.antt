-- ===== src/Trie/Node.antt =====
-- The nodes of leafNode.go, extensionNode.go and branchNode.go. A child is absent, or loaded; where
-- it is absent and its encoding (its hash) is there, it is collapsed.
use elrond_go.Prelude.{ℕ, zero, suc, Bool, true, false, ◌&&◌, [], ◌∷◌, if◌then◌else◌, leb}
use elrond_go.Prelude.Bytes.{Bytes}
use elrond_go.Trie.Key.{nr_of_children}

-- the fields `hash` and `dirty`; the empty hash is nil
pub record Mark : Type 0 where
  pub hash : Bytes
  pub dirty : Bool

-- of a node that was changed
abbrev pub changed : Mark
changed = record { hash = []; dirty = true }

-- A leaf's empty value is the nil one: the trie stores no other.
mutual
  pub data Node : Type 0 where
    leaf_node : Bytes → Bytes → Mark → Node
    extension_node : Bytes → Bytes → Child → Mark → Node
    branch_node : Children → Mark → Node

  pub data Child : Type 0 where
    absent : Child
    present : Node → Child

  -- `EncodedChildren` and `children` side by side
  pub data Children : Type 0 where
    nil : Children
    cons : Bytes → Child → Children → Children

abbrev pub Slot : Type 0
Slot = Bytes × Child

pub data Err : Type 0 where
  empty_node value_too_short pos_out_of_range node_not_found : Err
  -- of the database or of the decoder
  load_error : ℕ → Err
  -- a Go runtime panic: an index out of range, or a call on a nil node
  panics : Err
  -- the model's own bound on the depth was met
  out_of_fuel : Err

pub data Result {ℓ} (A : Type ℓ) : Type ℓ where
  ok : A → Result A
  err : Err → Result A

unfoldable pub is_empty : Bytes → Bool
is_empty [] = true
is_empty (b ∷ bs) = false

unfoldable pub is_absent : Child → Bool
is_absent absent = true
is_absent (present n) = false

unfoldable pub new_leaf_node : Bytes → Bytes → Node
new_leaf_node key value = leaf_node key value changed

unfoldable pub new_extension_node : Bytes → Child → Node
new_extension_node key child = extension_node key [] child changed

unfoldable pub empty_children : ℕ → Children
empty_children zero = nil
empty_children (suc n) = cons [] absent (empty_children n)

-- the children of newBranchNode
unfoldable pub no_children : Children
unfolding empty_children
no_children = empty_children nr_of_children

unfoldable pub get_slot : Children → ℕ → Slot
get_slot nil i = ([], absent)
get_slot (cons enc c cs) zero = (enc, c)
get_slot (cons enc c cs) (suc i) = get_slot cs i

unfoldable pub set_slot : Children → ℕ → Bytes → Child → Children
set_slot nil i enc c = nil
set_slot (cons e d cs) zero enc c = cons enc c cs
set_slot (cons e d cs) (suc i) enc c = cons e d (set_slot cs i enc c)

unfoldable pub size : Children → ℕ
size nil = 0
size (cons e d cs) = suc (size cs)

unfoldable pub is_slot_empty : Bytes → Child → Bool
unfolding is_empty is_absent
is_slot_empty enc c = is_absent c && is_empty enc

unfoldable pub are_all_empty : Children → Bool
are_all_empty nil = true
are_all_empty (cons enc c cs) =
    let rest = are_all_empty cs in if is_slot_empty enc c then rest else false

-- isEmptyOrNil says ErrEmptyNode
unfoldable pub is_empty_or_nil : Node → Bool
unfolding is_empty is_slot_empty are_all_empty
is_empty_or_nil (leaf_node key value m) = is_empty value
is_empty_or_nil (extension_node key enc c m) = is_slot_empty enc c
is_empty_or_nil (branch_node cs m) = are_all_empty cs

unfoldable pub child_pos_out_of_range : ℕ → Bool
child_pos_out_of_range pos = leb nr_of_children pos

-- getChildPosition: how many slots are in use, and the last of them
unfoldable pub get_child_position_from : ℕ → Children → ℕ × ℕ → ℕ × ℕ
get_child_position_from i nil (n, pos) = (n, pos)
get_child_position_from i (cons enc c cs) (n, pos) =
    get_child_position_from (suc i) cs (if is_slot_empty enc c then (n, pos) else (suc n, i))

unfoldable pub get_child_position : Children → ℕ × ℕ
unfolding get_child_position_from
get_child_position cs = get_child_position_from 0 cs (0, 0)

-- reduceNode: a node takes its position in front of its key
unfoldable pub reduce_node : ℕ → Node → Node
unfolding new_leaf_node new_extension_node
reduce_node pos (leaf_node key value m) = new_leaf_node (pos ∷ key) value
reduce_node pos (extension_node key enc c m) = new_extension_node (pos ∷ key) c
reduce_node pos (branch_node cs m) = new_extension_node (pos ∷ []) (present (branch_node cs m))
