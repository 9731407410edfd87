-- ===== src/Trie/Shrink.antt =====
-- What is left of a branch after a deletion: reduceNode of the three nodes, and the end of
-- branchNode.delete.
use elrond_go.Prelude.{
  ℕ, ◌<◌, ◌≤◌, ◌≡◌, refl, inl, inr, Bool, true, false, none, some, [], ◌∷◌, arith, ◌==◌, ==_iff,
  if◌then◌else◌, Bool-cases,
}
use elrond_go.Prelude.Bytes.{Bytes, bytes_eq}
use elrond_go.Trie.Node.{
  Mark, changed, Node, leaf_node, extension_node, branch_node, Child, absent, present, Children,
  Result, ok, is_empty, new_leaf_node, new_extension_node, get_slot, size, get_child_position,
  reduce_node,
}
use elrond_go.Trie.Ops.Resolve.{Change, resolve_slot}
use elrond_go.Trie.Ops.Delete.{shrink_branch}
use elrond_go.Trie.Map.{
  find, find_rest, find_at, strip, used, in_use, IsTrie, IsChild, leaf, extension, branch, free,
  taken, find_at-get_slot,
}
use elrond_go.Trie.Split.{same_nat, apart_sym, nibble}
use elrond_go.Trie.SplitLeaf.{find_rest-none}
use elrond_go.Trie.Position.{
  OnlySlot, slot_use, get_child_position-OnlySlot, count-get_child_position_from,
}

filled : (k : ℕ) (ks : Bytes) → is_empty (k ∷ ks) ≡ false
unfolding is_empty
filled k ks = refl

-- a node that stands behind one more nibble
reduce_node-IsTrie :
    (q : ℕ) (n : Node) (e : Bool)
    → q < 17
    → (q == 16) ≡ e
    → IsTrie e n
    → IsTrie false (reduce_node q n)
unfolding reduce_node new_leaf_node new_extension_node
reduce_node-IsTrie q (leaf_node key value m) e lq p (leaf h fl) = leaf (lq, rw p h) fl
reduce_node-IsTrie q (extension_node key enc c m) e lq p (extension some_path path is_b t) =
    extension (filled q key) (nibble q lq p, path) is_b t
reduce_node-IsTrie q (branch_node cs m) e lq p (branch sz many slots) =
    extension (filled q []) (nibble q lq p, tt) refl (branch sz many slots)

find-reduce_node :
    (q i : ℕ) (n : Node) (js : Bytes)
    → find (reduce_node q n) (i ∷ js) ≡ (if q == i then find n js else none)
unfolding reduce_node new_leaf_node new_extension_node find bytes_eq strip
find-reduce_node q i (leaf_node key value m) js = elim (Bool-cases (q == i)) [
  | inl t ↦ rw ((==_iff q i).0 t, same_nat i) refl
  | inr t ↦ rw (t, apart_sym q i t) refl
]
find-reduce_node q i (extension_node key enc c m) js = elim (Bool-cases (q == i)) [
  | inl t ↦ rw t refl
  | inr t ↦ rw t (find_rest-none c)
]
find-reduce_node q i (branch_node cs m) js = elim (Bool-cases (q == i)) [
  | inl t ↦ rw t refl
  | inr t ↦ rw t refl
]

-- what is left of a branch that says the same
pub record Shrunk (cs : Children) (r : Result Change) : Type 0 where
  pub node : Node
  pub says : r ≡ ok (true, present node)
  pub shape : IsTrie false node
  pub found : (i : ℕ) (js : Bytes) → i < 17 → find node (i ∷ js) ≡ find_at cs i js

module _ (load : Bytes → Result Node) (cs : Children) (m : Mark) (sz : size cs ≡ 17)
    (some_left : 1 ≤ used cs)
    (slots : (i : ℕ) → i < 17 → IsChild (i == 16) (get_slot cs i).0 (get_slot cs i).1) where
  count : (get_child_position cs).0 ≡ used cs
  count = unfold get_child_position in omega (arith, count-get_child_position_from 0 cs 0 0)

  stays : (used cs == 1) ≡ false → Shrunk cs (shrink_branch load cs m).1
  stays h = record {
    node = branch_node cs changed;
    says = unfold shrink_branch in rw (count, h) refl;
    shape = branch sz (ground (arith, some_left, h)) slots;
    found = λ i js _. unfold find in refl;
  }

  unused :
      (i : ℕ) (js : Bytes)
      → IsChild (i == 16) (get_slot cs i).0 (get_slot cs i).1
      → slot_use cs i ≡ 0
      → none ≡ find_rest (get_slot cs i).1 (some js)
  unfolding slot_use find
  unused i js = go (get_slot cs i).0 (get_slot cs i).1
    where
      go :
          (enc : Bytes) (c : Child)
          → IsChild (i == 16) enc c
          → in_use enc c ≡ 0
          → none ≡ find_rest c (some js)
      go enc absent d z = refl
      go enc (present n) d z = absurd (omega (arith, z))

  reduces : used cs ≡ 1 → Shrunk cs (shrink_branch load cs m).1
  reduces h = by_slot (get_slot cs q).0 (get_slot cs q).1 refl (slots q lq)
    where
      q : ℕ
      q = (get_child_position cs).1

      only : OnlySlot cs q
      only = get_child_position-OnlySlot cs h

      lq : q < 17
      lq = omega (arith, only.in_size, sz)

      says_reduced :
          (enc : Bytes) (n : Node)
          → get_slot cs q ≡ (enc, present n)
          → (shrink_branch load cs m).1 ≡ ok (true, present (reduce_node q n))
      says_reduced enc n g = unfold shrink_branch resolve_slot in rw (count, h, g) refl

      found_reduced :
          {enc : Bytes} (n : Node)
          → get_slot cs q ≡ (enc, present n)
          → (i : ℕ) (js : Bytes) → i < 17
          → find (reduce_node q n) (i ∷ js) ≡ find_at cs i js
      found_reduced n g i js li = rw (find-reduce_node q i n js) (elim (Bool-cases (q == i)) [
        | inl t ↦ rw (t, ← (==_iff q i).0 t, find_at-get_slot cs q js, g) (unfold find in refl)
        | inr t ↦ rw (t, find_at-get_slot cs i js) (unused i js (slots i li) (only.elsewhere i t))
      ])

      by_slot :
          (enc : Bytes) (c : Child)
          → get_slot cs q ≡ (enc, c)
          → IsChild (q == 16) enc c
          → Shrunk cs (shrink_branch load cs m).1
      by_slot enc absent g free =
          let u : slot_use cs q ≡ 0 = unfold slot_use is_empty in rw g refl in
          absurd (omega (arith, u, only.in_use_there))
      by_slot enc (present n) g (taken t) = record {
        node = reduce_node q n;
        says = says_reduced enc n g;
        shape = reduce_node-IsTrie q n (q == 16) lq refl t;
        found = found_reduced n g;
      }

  pub shrink_branch_lem : Shrunk cs (shrink_branch load cs m).1
  shrink_branch_lem = elim (Bool-cases (used cs == 1)) [
    | inl t ↦ reduces ((==_iff (used cs) 1).0 t)
    | inr t ↦ stays t
  ]
