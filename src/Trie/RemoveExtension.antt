-- ===== src/Trie/RemoveExtension.antt =====
-- What extensionNode.delete leaves of a trie in memory that binds the key: the join of two paths.
use elrond_go.Prelude.{
  ℕ, suc, ◌<◌, ◌≡◌, refl, inl, inr, true, false, Option, none, some, [], ◌∷◌, ◌++◌, arith, ◌==◌,
  ==_iff, if◌then◌else◌, length, Bool-cases,
}
use elrond_go.Prelude.Bytes.{Bytes, bytes_eq}
use elrond_go.Trie.Node.{
  Mark, changed, Node, leaf_node, extension_node, branch_node, Child, absent, present, Result, ok,
  is_empty, is_absent, is_slot_empty, is_empty_or_nil, new_leaf_node, new_extension_node,
}
use elrond_go.Trie.Ops.Delete.{delete, delete_in_extension, join_extension}
use elrond_go.Trie.Ops.Resolve.{resolve_slot}
use elrond_go.Trie.Map.{
  find, find_rest, strip, IsKey, IsNibbles, is_branch, IsTrie, leaf, extension, branch,
}
use elrond_go.Trie.Split.{
  same_nat, apart_sym, strip-some, strip-none, bytes_eq-append, drop-append_self, IsKey-path,
  not_end,
}
use elrond_go.Trie.SplitLeaf.{find_rest-none}
use elrond_go.Trie.Insert.{shorter}
use elrond_go.Trie.Remove.{IsLeft, left, Deleted, Deletes, prefix_len-append, not_less}

strip-path :
    (p q j enc : Bytes) (c : Child) (m : Mark)
    → find_rest c (strip (p ++ q) j) ≡ find_rest (present (extension_node q enc c m)) (strip p j)
unfolding find strip
strip-path [] q j enc c m = refl
strip-path (k ∷ p) q [] enc c m = find_rest-none c
strip-path (k ∷ p) q (i ∷ js) enc c m = elim (Bool-cases (k == i)) [
  | inl t ↦ rw t (strip-path p q js enc c m)
  | inr t ↦ rw t (find_rest-none c)
]

leaf-path :
    (p q v j : Bytes) (m : Mark)
    → find (leaf_node (p ++ q) v changed) j ≡ find_rest (present (leaf_node q v m)) (strip p j)
unfolding find strip bytes_eq
leaf-path [] q v j m = refl
leaf-path (k ∷ p) q v [] m = refl
leaf-path (k ∷ p) q v (i ∷ js) m = elim (Bool-cases (k == i)) [
  | inl t ↦ rw (t, (==_iff k i).0 t, same_nat i) (leaf-path p q v js m)
  | inr t ↦ rw (t, apart_sym k i t) refl
]

find-join_extension :
    (p : Bytes) (n : Node) (j : Bytes)
    → find (join_extension p (present n)) j ≡ find_rest (present n) (strip p j)
unfolding join_extension new_leaf_node new_extension_node find
find-join_extension p (leaf_node q v m) j = leaf-path p q v j m
find-join_extension p (extension_node q enc c m) j = strip-path p q j enc c m
find-join_extension p (branch_node cs m) j = refl

IsKey-join : (p q : Bytes) → IsNibbles p → IsKey false q → IsKey false (p ++ q)
IsKey-join [] q h k = k
IsKey-join (i ∷ p) q h k = rw (not_end i h.0) (omega (arith, h.0), IsKey-join p q h.1 k)

IsNibbles-join : (p q : Bytes) → IsNibbles p → IsNibbles q → IsNibbles (p ++ q)
IsNibbles-join [] q h k = k
IsNibbles-join (i ∷ p) q h k = (h.0, IsNibbles-join p q h.1 k)

is_empty-append : (p q : Bytes) → is_empty p ≡ false → is_empty (p ++ q) ≡ false
unfolding is_empty
is_empty-append [] q h = cc
is_empty-append (x ∷ p) q h = refl

join_extension-IsTrie :
    (p : Bytes) (n : Node)
    → is_empty p ≡ false
    → IsNibbles p
    → IsTrie false n
    → IsTrie false (join_extension p (present n))
unfolding join_extension new_leaf_node new_extension_node
join_extension-IsTrie p (leaf_node q v m) f h (leaf k fl) = leaf (IsKey-join p q h k) fl
join_extension-IsTrie p (extension_node q enc c m) f h (extension some_path path is_b t) =
    extension (is_empty-append p q f) (IsNibbles-join p q h path) is_b t
join_extension-IsTrie p (branch_node cs m) f h (branch sz many slots) =
    extension f h refl (branch sz many slots)

module _ (load : Bytes → Result Node) (f : ℕ) (rec : Deletes load f) (ekey enc : Bytes) (n : Node)
    (m : Mark) (is_b : is_branch n ≡ true) (some_path : is_empty ekey ≡ false)
    (path : IsNibbles ekey) (tn : IsTrie false n) where
  abbrev ext : Node
  ext = extension_node ekey enc (present n) m

  goes_within :
      (rest : Bytes) (c : Child)
      → is_empty (ekey ++ rest) ≡ false
      → (delete load f n rest).1 ≡ ok (true, c)
      → (delete load (suc f) ext (ekey ++ rest)).1 ≡ ok (true, present (join_extension ekey c))
  unfolding delete delete_in_extension resolve_slot is_empty_or_nil is_slot_empty is_absent
  goes_within rest c e h =
      rw (e, prefix_len-append ekey rest, not_less (length ekey), drop-append_self ekey rest, h)
        refl

  found-through :
      (n' : Node) (rest : Bytes)
      → ((js : Bytes)
          → IsKey false js
          → find n' js ≡ (if bytes_eq js rest then none else find n js))
      → (j : Bytes) → IsKey false j
      → find (join_extension ekey (present n')) j
        ≡ (if bytes_eq j (ekey ++ rest) then none else find ext j)
  unfolding find
  found-through n' rest h j hj = rw (find-join_extension ekey n' j) (by_strip (strip ekey j) refl)
    where
      by_strip :
          (o : Option Bytes)
          → strip ekey j ≡ o
          → find_rest (present n') (strip ekey j)
            ≡ (if bytes_eq j (ekey ++ rest) then none else find_rest (present n) (strip ekey j))
      by_strip none e = rw (e, strip-none ekey j rest e) refl
      by_strip (some js) e =
          let q : j ≡ ekey ++ js = strip-some ekey j js e in
          let d : bytes_eq j (ekey ++ rest) ≡ bytes_eq js rest =
            rw q (bytes_eq-append ekey js rest) in
          rw (e, d) (h js (IsKey-path ekey js path (rw q at hj)))

  ext_rest :
      (rest value : Bytes)
      → length (ekey ++ rest) < suc f
      → IsKey false (ekey ++ rest)
      → find n rest ≡ some value
      → Deleted false ext (ekey ++ rest) (delete load (suc f) ext (ekey ++ rest)).1
  ext_rest rest value lt h b =
      let r =
        rec false n rest value (shorter ekey rest some_path lt) tn (IsKey-path ekey rest path h)
          b in
      by_child r.child r.says r.shape (r.kind is_b) r.found
    where
      by_child :
          (c : Child)
          → (delete load f n rest).1 ≡ ok (true, c)
          → IsLeft false c
          → is_absent c ≡ false
          → ((j : Bytes)
              → IsKey false j
              → find_rest c (some j) ≡ (if bytes_eq j rest then none else find n j))
          → Deleted false ext (ekey ++ rest) (delete load (suc f) ext (ekey ++ rest)).1
      by_child absent says shape k found = unfold is_absent in cc
      by_child (present n') says (left t) k found = record {
        child = present (join_extension ekey (present n'));
        says = goes_within rest (present n') (is_empty-append ekey rest some_path) says;
        shape = left (join_extension-IsTrie ekey n' some_path path t);
        kind = λ h. cc;
        found = λ j hj.
            unfold find in found-through n' rest (λ js hjs. unfold find in found js hjs) j hj;
      }

  pub delete-extension :
      (key value : Bytes)
      → length key < suc f
      → IsKey false key
      → find ext key ≡ some value
      → Deleted false ext key (delete load (suc f) ext key).1
  unfolding find
  delete-extension key value lt h b = by_strip (strip ekey key) refl
    where
      by_strip :
          (o : Option Bytes)
          → strip ekey key ≡ o
          → Deleted false ext key (delete load (suc f) ext key).1
      by_strip none e = let b' : none ≡ some value = rw e at b in cc
      by_strip (some rest) e =
          let q : key ≡ ekey ++ rest = strip-some ekey key rest e in
          rw q (ext_rest rest value (rw q at lt) (rw q at h) (rw e at b))
