-- ===== src/Trie/SplitExtension.antt =====
-- What a key that parts from an extension makes of it: the end of extensionNode.insert.
use elrond_go.Prelude.{
  ℕ, ◌<◌, ◌≡◌, refl, true, false, some, [], ◌∷◌, ◌++◌, arith, ◌==◌, if◌then◌else◌, length,
}
use elrond_go.Prelude.Bytes.{Bytes}
use elrond_go.Trie.Key.{prefix_len}
use elrond_go.Trie.Node.{
  Mark, Node, extension_node, Child, present, Children, ok, is_empty, new_leaf_node,
  new_extension_node,
}
use elrond_go.Trie.Ops.Insert.{split_extension}
use elrond_go.Trie.Map.{
  find, find_rest, strip, IsNibbles, is_branch, in_use, IsTrie, IsChild, leaf, extension, taken,
}
use elrond_go.Trie.Split.{BehindPath, get_elem?-append, drop-append, not_end}
use elrond_go.Trie.Pair.{pair, pair-IsTrie}
use elrond_go.Trie.SplitLeaf.{
  Inserted, behind, behind-IsTrie, find-behind, in_range, placed, under-strip, find-split,
}

-- the child of an extension, behind what is left of its path
following_child : Bytes → Node → Child
following_child y n = if is_empty y then present n else present (new_extension_node y (present n))

module _ (n : Node) (is_b : is_branch n ≡ true) (tn : IsTrie false n) where
  following-IsChild : (y : Bytes) → IsNibbles y → IsChild false [] (following_child y n)
  unfolding following_child is_empty new_extension_node
  following-IsChild [] p = taken tn
  following-IsChild (k ∷ ks) p = taken (extension (unfold is_empty in refl) p is_b tn)

  in_use-following : (y : Bytes) → in_use [] (following_child y n) ≡ 1
  unfolding following_child is_empty
  in_use-following [] = refl
  in_use-following (k ∷ ks) = refl

  find_rest-following :
      (y r : Bytes) → find_rest (following_child y n) (some r) ≡ find_rest (present n) (strip y r)
  unfolding following_child is_empty find strip new_extension_node
  find_rest-following [] r = refl
  find_rest-following (k ∷ ks) r = refl

module _ (common x y value : Bytes) (a b : ℕ) (pa : BehindPath false common a x) (lb : b < 16)
    (path : IsNibbles y) (apart : (a == b) ≡ false)
    (len : prefix_len (common ++ a ∷ x) (common ++ b ∷ y) ≡ length common)
    (filled : is_empty value ≡ false) (n : Node) (is_b : is_branch n ≡ true)
    (tn : IsTrie false n) where
  abbrev key : Bytes
  key = common ++ a ∷ x

  abbrev old_key : Bytes
  old_key = common ++ b ∷ y

  abbrev cs : Children
  cs = pair b a (following_child y n) (present (new_leaf_node x value))

  b_in : b < 17
  b_in = omega (arith, lb)

  new-IsTrie : IsTrie (a == 16) (new_leaf_node x value)
  new-IsTrie = unfold new_leaf_node in leaf pa.rest filled

  says_split : split_extension old_key (present n) key value ≡ ok (true, present (behind common cs))
  unfolding split_extension following_child
  says_split =
      rw
        (
          len,
          get_elem?-append common b y,
          len,
          get_elem?-append common a x,
          in_range b b_in,
          in_range a pa.head,
          len,
          drop-append common b y,
          drop-append common a x,
          placed common (b ∷ y) cs,
          split_extension,
        )
        refl

  pub split_extension_lem :
      (enc : Bytes) (m : Mark)
      → Inserted false
          (extension_node old_key enc (present n) m)
          key
          value
          (split_extension old_key (present n) key value)
  split_extension_lem enc m = record {
    node = behind common cs;
    says = says_split;
    shape = behind-IsTrie common _ pa.path (
        pair-IsTrie b a (following_child y n) (present (new_leaf_node x value)) b_in pa.head apart
          (rw (not_end b lb) (following-IsChild n is_b tn y path)) (taken new-IsTrie)
          (in_use-following n is_b tn y) refl);
    kind = λ h. cc;
    found = λ j _.
        let p : find (extension_node old_key enc (present n) m) j
            ≡ find_rest (present n) (strip old_key j) =
          unfold find in refl in
        rw (find-behind common cs j, p, under-strip common y b (present n) j)
          (find-split a b x value (following_child y n) (λ r. find_rest (present n) (strip y r))
            pa.head b_in apart (find_rest-following n is_b tn y) common j);
  }
