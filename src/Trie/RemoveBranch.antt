-- ===== src/Trie/RemoveBranch.antt =====
-- What branchNode.delete leaves of a trie in memory that binds the key, and delete on every such trie.
use elrond_go.Prelude.{
  ℕ, zero, suc, ◌<◌, ◌≤◌, ◌≡◌, refl, sym, ◌∙◌, inl, inr, Bool, true, false, none, some, [], ◌∷◌,
  arith, ◌==◌, ==_iff, if◌then◌else◌, length, Bool-cases,
}
use elrond_go.Prelude.Bytes.{Bytes, bytes_eq}
use elrond_go.Trie.Node.{
  Mark, Node, leaf_node, extension_node, branch_node, Child, absent, present, Children, Result, ok,
  is_absent, is_empty_or_nil, get_slot, set_slot, size,
}
use elrond_go.Trie.Ops.Delete.{delete, shrink_branch, delete_in_branch, after_delete}
use elrond_go.Trie.Ops.Resolve.{resolve_slot}
use elrond_go.Trie.Map.{
  find, find_rest, IsKey, used, in_use, IsChild, extension, branch, free, taken, find_at-get_slot,
  find_at-set_slot, get_slot-set_slot, size-set_slot, used-set_slot,
}
use elrond_go.Trie.Split.{same_nat, apart_sym}
use elrond_go.Trie.SplitLeaf.{in_range}
use elrond_go.Trie.InsertBranch.{are_all_empty-used}
use elrond_go.Trie.Shrink.{Shrunk, shrink_branch_lem}
use elrond_go.Trie.Remove.{IsLeft, gone, left, Deleted, Deletes, delete-leaf}
use elrond_go.Trie.RemoveExtension.{delete-extension}

module _ (load : Bytes → Result Node) (f : ℕ) (rec : Deletes load f) (cs : Children) (m : Mark)
    (sz : size cs ≡ 17) (many : 2 ≤ used cs)
    (slots : (i : ℕ) → i < 17 → IsChild (i == 16) (get_slot cs i).0 (get_slot cs i).1) (pos : ℕ)
    (key value : Bytes) (lp : pos < 17) where
  in_size : pos < size cs
  in_size = rw sz lp

  delete_branch :
      (enc : Bytes) (n : Node) (c : Child)
      → get_slot cs pos ≡ (enc, present n)
      → (delete load f n key).1 ≡ ok (true, c)
      → (delete load (suc f) (branch_node cs m) (pos ∷ key)).1
        ≡ (shrink_branch load (set_slot cs pos (after_delete enc c) c) m).1
  unfolding delete delete_in_branch resolve_slot is_empty_or_nil
  delete_branch enc n c g h = rw (are_all_empty-used cs many, in_range pos lp, g, h) refl

  module _ (enc : Bytes) (n : Node) (c : Child) (g : get_slot cs pos ≡ (enc, present n))
      (l : IsLeft (pos == 16) c) where
    abbrev cs' : Children
    cs' = set_slot cs pos (after_delete enc c) c

    left-IsChild : (e : Bool) (c : Child) → IsLeft e c → IsChild e (after_delete enc c) c
    left-IsChild e absent gone = free
    left-IsChild e (present k) (left t) = taken t

    slots' : (i : ℕ) → i < 17 → IsChild (i == 16) (get_slot cs' i).0 (get_slot cs' i).1
    slots' i li =
        rw (get_slot-set_slot cs pos i (after_delete enc c) c in_size)
          (elim (Bool-cases (pos == i)) [
            | inl u ↦ rw u (left-IsChild (i == 16) c (rw (sym ((==_iff pos i).0 u)) l))
            | inr u ↦ rw u (slots i li)
          ])

    some_left : 1 ≤ used cs'
    some_left =
        let e : in_use (get_slot cs pos).0 (get_slot cs pos).1 ≡ 1 = rw g refl in
        omega (arith, many, e, used-set_slot cs pos (after_delete enc c) c in_size)

    shrunk : Shrunk cs' (shrink_branch load cs' m).1
    shrunk =
        shrink_branch_lem load cs' m (size-set_slot cs pos (after_delete enc c) c ∙ sz) some_left
          slots'

    found_in :
        ((js : Bytes)
          → IsKey (pos == 16) js
          → find_rest c (some js) ≡ (if bytes_eq js key then none else find n js))
        → (j : Bytes) → IsKey false j
        → find_rest (present shrunk.node) (some j)
          ≡ (if bytes_eq j (pos ∷ key) then none else find (branch_node cs m) j)
    unfolding find bytes_eq
    found_in h [] hj = absurd hj
    found_in h (i ∷ js) hj =
        rw (shrunk.found i js hj.0, find_at-set_slot cs pos i (after_delete enc c) c js in_size)
          (elim (Bool-cases (pos == i)) [
            | inl u ↦
                let e : i ≡ pos = sym ((==_iff pos i).0 u) in
                rw (e, same_nat pos, find_at-get_slot cs pos js, g) (h js (rw e at hj.1))
            | inr u ↦ rw (u, apart_sym pos i u) refl
          ])

  pub delete-branch :
      length (pos ∷ key) < suc f
      → IsKey (pos == 16) key
      → find (branch_node cs m) (pos ∷ key) ≡ some value
      → Deleted false
          (branch_node cs m)
          (pos ∷ key)
          (delete load (suc f) (branch_node cs m) (pos ∷ key)).1
  unfolding find
  delete-branch lt hk b =
      by_slot (get_slot cs pos).0 (get_slot cs pos).1 refl (slots pos lp)
        (rw (find_at-get_slot cs pos key) at b)
    where
      by_slot :
          (enc : Bytes) (c : Child)
          → get_slot cs pos ≡ (enc, c)
          → IsChild (pos == 16) enc c
          → find_rest (get_slot cs pos).1 (some key) ≡ some value
          → Deleted false
              (branch_node cs m)
              (pos ∷ key)
              (delete load (suc f) (branch_node cs m) (pos ∷ key)).1
      by_slot enc absent g free b = let b' : none ≡ some value = rw g at b in cc
      by_slot enc (present n) g (taken t) b =
          let r = rec (pos == 16) n key value (omega (arith, lt)) t hk (rw g at b) in
          let s = shrunk enc n r.child g r.shape in
          record {
            child = present s.node;
            says = delete_branch enc n r.child g r.says ∙ s.says;
            shape = left s.shape;
            kind = λ _. unfold is_absent in refl;
            found = found_in enc n r.child g r.shape r.found;
          }

pub delete-Deleted : (load : Bytes → Result Node) (f : ℕ) → Deletes load f
delete-Deleted load zero e n key value lt t h b = absurd (omega (arith, lt))
delete-Deleted load (suc f) e (leaf_node lkey lv m) key value lt t h b =
    delete-leaf load f lv m e lkey key value b
delete-Deleted load (suc f) e (extension_node ekey enc c m) key value lt
      (extension {n = n} some_path path is_b t) h b =
    delete-extension load f (delete-Deleted load f) ekey enc n m is_b some_path path t key value lt
      h b
delete-Deleted load (suc f) e (branch_node cs m) [] value lt (branch sz many slots) h b = absurd h
delete-Deleted load (suc f) e (branch_node cs m) (pos ∷ key) value lt (branch sz many slots) h b =
    delete-branch load f (delete-Deleted load f) cs m sz many slots pos key value h.0 lt h.1 b
