-- ===== src/Trie/SplitLeaf.antt =====
-- What a key that parts from a leaf makes of it: the end of leafNode.insert.
use elrond_go.Prelude.{
  ℕ, ◌<◌, ◌≡◌, refl, inl, inr, Bool, true, false, Option, none, some, [], ◌∷◌, ◌++◌, arith, ◌==◌,
  if◌then◌else◌, length, take, Bool-cases,
}
use elrond_go.Prelude.Bytes.{Bytes, bytes_eq}
use elrond_go.Trie.Key.{prefix_len}
use elrond_go.Trie.Node.{
  Mark, changed, Node, leaf_node, extension_node, branch_node, Child, absent, present, Children,
  Result, ok, is_empty, new_leaf_node, new_extension_node, child_pos_out_of_range,
}
use elrond_go.Trie.Ops.Resolve.{Change}
use elrond_go.Trie.Ops.Insert.{split_leaf}
use elrond_go.Trie.Map.{
  find, find_rest, find_at, strip, IsKey, IsNibbles, is_branch, IsTrie, leaf, extension, taken,
}
use elrond_go.Trie.Split.{BehindPath, get_elem?-append, take-append_self, drop-append}
use elrond_go.Trie.Pair.{pair, pair-IsTrie, find_at-pair}

-- that a key `key` was bound to `value` in place of what `n` says
pub record Inserted (e : Bool) (n : Node) (key value : Bytes) (r : Result Change) : Type 0 where
  pub node : Node
  pub says : r ≡ ok (true, present node)
  pub shape : IsTrie e node
  pub kind : is_branch n ≡ true → is_branch node ≡ true
  pub found :
      (j : Bytes) → IsKey e j → find node j ≡ (if bytes_eq j key then some value else find n j)

-- a branch, behind the path that leads to it
abbrev pub behind : Bytes → Children → Node
behind [] cs = branch_node cs changed
behind (k ∷ ks) cs = extension_node (k ∷ ks) [] (present (branch_node cs changed)) changed

pub behind-IsTrie :
    (common : Bytes) (cs : Children)
    → IsNibbles common
    → IsTrie false (branch_node cs changed)
    → IsTrie false (behind common cs)
behind-IsTrie [] cs p t = t
behind-IsTrie (k ∷ ks) cs p t =
    let e : is_empty (k ∷ ks) ≡ false = unfold is_empty in refl in extension e p refl t

pub find-behind :
    (common : Bytes) (cs : Children) (j : Bytes)
    → find (behind common cs) j ≡ find_rest (present (branch_node cs changed)) (strip common j)
unfolding find strip
find-behind [] cs j = refl
find-behind (k ∷ ks) cs j = refl

pub in_range : (a : ℕ) → a < 17 → child_pos_out_of_range a ≡ false
unfolding child_pos_out_of_range
in_range a h = ground arith

-- the two outcomes of a split name the branch alike
pub placed :
    (common tail : Bytes) (cs : Children)
    → (if length common == 0
        then branch_node cs changed
        else new_extension_node
            (take (length common) (common ++ tail))
            (present (branch_node cs changed)))
      ≡ behind common cs
unfolding new_extension_node
placed [] tail cs = refl
placed (k ∷ ks) tail cs = rw (take-append_self ks tail) (ground arith)

-- a map, at the end of a path
unfoldable pub under : Bytes → (Bytes → Option Bytes) → Bytes → Option Bytes
under [] g j = g j
under (k ∷ ks) g [] = none
under (k ∷ ks) g (i ∷ js) = let rest = under ks g js in if k == i then rest else none

under-leaf :
    (common y lv : Bytes) (b : ℕ) (m : Mark) (j : Bytes)
    → find (leaf_node (common ++ b ∷ y) lv m) j
      ≡ under (common ++ b ∷ []) (find (new_leaf_node y lv)) j
unfolding find under bytes_eq new_leaf_node
under-leaf [] y lv b m [] = refl
under-leaf [] y lv b m (i ∷ js) = ground arith
under-leaf (k ∷ common) y lv b m [] = refl
under-leaf (k ∷ common) y lv b m (i ∷ js) = ground (arith, under-leaf common y lv b m js)

pub find_rest-none : (c : Child) → find_rest c none ≡ none
unfolding find
find_rest-none absent = refl
find_rest-none (present n) = refl

pub under-strip :
    (common y : Bytes) (b : ℕ) (c : Child) (j : Bytes)
    → find_rest c (strip (common ++ b ∷ y) j)
      ≡ under (common ++ b ∷ []) (λ r. find_rest c (strip y r)) j
unfolding find under strip
under-strip [] y b absent [] = refl
under-strip [] y b (present n) [] = refl
under-strip [] y b c (i ∷ js) = elim (Bool-cases (b == i)) [
  | inl t ↦ rw t refl
  | inr t ↦ rw t (find_rest-none c)
]
under-strip (k ∷ common) y b absent [] = refl
under-strip (k ∷ common) y b (present n) [] = refl
under-strip (k ∷ common) y b c (i ∷ js) = elim (Bool-cases (k == i)) [
  | inl t ↦ rw t (under-strip common y b c js)
  | inr t ↦ rw t (find_rest-none c)
]

module _ (a b : ℕ) (x value : Bytes) (old : Child) (g : Bytes → Option Bytes) (la : a < 17)
    (lb : b < 17) (apart : (a == b) ≡ false)
    (same : (r : Bytes) → find_rest old (some r) ≡ g r) where
  abbrev split_into : Children
  split_into = pair b a old (present (new_leaf_node x value))

  branches :
      (i : ℕ) (js : Bytes)
      → (if a == i
          then find_rest (present (new_leaf_node x value)) (some js)
          else if b == i
          then find_rest old (some js)
          else none)
        ≡ (if bytes_eq (i ∷ js) (a ∷ x) then some value else under (b ∷ []) g (i ∷ js))
  unfolding find bytes_eq under new_leaf_node
  branches i js = elim (Bool-cases (a == i)) [
    | inl t ↦
        let u : (i == a) ≡ true = ground (arith, t) in
        let w : (b == i) ≡ false = ground (arith, t, apart) in rw (t, u, w) refl
    | inr t ↦ let u : (i == a) ≡ false = ground (arith, t) in rw (t, u, same js) refl
  ]

  find-pair :
      (j : Bytes)
      → find (branch_node split_into changed) j
        ≡ (if bytes_eq j (a ∷ x) then some value else under (b ∷ []) g j)
  find-pair [] = unfold find bytes_eq under in refl
  find-pair (i ∷ js) =
      let p : find (branch_node split_into changed) (i ∷ js) ≡ find_at split_into i js =
        unfold find in refl in
      rw (p, find_at-pair b a old (present (new_leaf_node x value)) lb la apart i js)
        (branches i js)

  -- what the split node says, below the path that the two keys share
  pub find-split :
      (common j : Bytes)
      → find_rest (present (branch_node split_into changed)) (strip common j)
        ≡ (if bytes_eq j (common ++ a ∷ x) then some value else under (common ++ b ∷ []) g j)
  unfolding find bytes_eq under strip
  find-split [] j = find-pair j
  find-split (k ∷ common) [] = refl
  find-split (k ∷ common) (i ∷ js) = elim (Bool-cases (k == i)) [
    | inl t ↦ let u : (i == k) ≡ true = ground (arith, t) in rw (t, u) (find-split common js)
    | inr t ↦
        let u : (i == k) ≡ false = ground (arith, t) in
        rw (t, u) (find_rest-none (present (branch_node split_into changed)))
  ]

module _ (common x y value : Bytes) (a b : ℕ) (pa : BehindPath false common a x)
    (apart : (a == b) ≡ false)
    (len : prefix_len (common ++ a ∷ x) (common ++ b ∷ y) ≡ length common)
    (filled : is_empty value ≡ false) where
  abbrev key : Bytes
  key = common ++ a ∷ x

  abbrev old_key : Bytes
  old_key = common ++ b ∷ y

  pub new-IsTrie : IsTrie (a == 16) (new_leaf_node x value)
  new-IsTrie = unfold new_leaf_node in leaf pa.rest filled

  module _ (pb : BehindPath false common b y) where
    old-IsTrie : (lv : Bytes) → is_empty lv ≡ false → IsTrie (b == 16) (new_leaf_node y lv)
    old-IsTrie lv fl = unfold new_leaf_node in leaf pb.rest fl

    leaf_says :
        (lv : Bytes)
        → split_leaf old_key lv key value
          ≡ ok (
            true,
            present (
                behind common
                  (pair b a (present (new_leaf_node y lv)) (present (new_leaf_node x value)))),
          )
    unfolding split_leaf
    leaf_says lv =
        rw
          (
            len,
            get_elem?-append common b y,
            len,
            get_elem?-append common a x,
            in_range b pb.head,
            in_range a pa.head,
            len,
            drop-append common b y,
            drop-append common a x,
            placed common (b ∷ y)
                (pair b a (present (new_leaf_node y lv)) (present (new_leaf_node x value))),
            split_leaf,
          )
          refl

    pub split_leaf_lem :
        (lv : Bytes) (m : Mark)
        → is_empty lv ≡ false
        → Inserted false (leaf_node old_key lv m) key value (split_leaf old_key lv key value)
    split_leaf_lem lv m fl = record {
      node =
          behind common (pair b a (present (new_leaf_node y lv)) (present (new_leaf_node x value)));
      says = leaf_says lv;
      shape = behind-IsTrie common _ pa.path (
          pair-IsTrie b a (present (new_leaf_node y lv)) (present (new_leaf_node x value)) pb.head
            pa.head apart (taken (old-IsTrie lv fl)) (taken new-IsTrie) refl refl);
      kind = λ h. cc;
      found = λ j _.
          rw
            (
              find-behind common
                  (pair b a (present (new_leaf_node y lv)) (present (new_leaf_node x value))) j,
              under-leaf common y lv b m j,
            )
            (find-split a b x value (present (new_leaf_node y lv)) (find (new_leaf_node y lv))
              pa.head pb.head apart (λ r. unfold find in refl) common j);
    }
