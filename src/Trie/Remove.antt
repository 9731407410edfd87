-- ===== src/Trie/Remove.antt =====
-- What delete does to a trie in memory that binds the key.
use elrond_go.Prelude.{
  ℕ, suc, ◌<◌, ◌≡◌, refl, ap, inl, inr, Bool, true, false, none, some, [], ◌∷◌, ◌++◌, arith, ltb,
  if◌then◌else◌, length, Bool-cases,
}
use elrond_go.Prelude.Bytes.{Bytes, bytes_eq, bytes_eq_iff}
use elrond_go.Trie.Key.{prefix_len}
use elrond_go.Trie.Node.{Mark, Node, leaf_node, Child, absent, present, Result, ok, is_absent}
use elrond_go.Trie.Ops.Resolve.{Change}
use elrond_go.Trie.Ops.Delete.{delete}
use elrond_go.Trie.Map.{find, find_rest, IsKey, is_branch, IsTrie}
use elrond_go.Trie.Split.{same_nat}

-- what is left, if anything is, is a trie
pub data IsLeft : Bool → Child → Type 0 where
  gone : {e : Bool} → IsLeft e absent
  left : {e : Bool} {n : Node} → IsTrie e n → IsLeft e (present n)

-- that a key was taken out of what `n` says
pub record Deleted (e : Bool) (n : Node) (key : Bytes) (r : Result Change) : Type 0 where
  pub child : Child
  pub says : r ≡ ok (true, child)
  pub shape : IsLeft e child
  pub kind : is_branch n ≡ true → is_absent child ≡ false
  pub found :
      (j : Bytes)
      → IsKey e j
      → find_rest child (some j) ≡ (if bytes_eq j key then none else find n j)

abbrev pub Deletes : (Bytes → Result Node) → ℕ → Type 0
Deletes load f =
    (e : Bool) (n : Node) (key value : Bytes)
    → length key < f
    → IsTrie e n
    → IsKey e key
    → find n key ≡ some value
    → Deleted e n key (delete load f n key).1

prefix_len_self : (key : Bytes) → prefix_len key key ≡ length key
unfolding prefix_len
prefix_len_self [] = refl
prefix_len_self (k ∷ key) = rw (same_nat k) (ap suc (prefix_len_self key))

pub prefix_len-append : (p rest : Bytes) → prefix_len (p ++ rest) p ≡ length p
unfolding prefix_len
prefix_len-append [] [] = refl
prefix_len-append [] (x ∷ rest) = refl
prefix_len-append (k ∷ p) rest = rw (same_nat k) (ap suc (prefix_len-append p rest))

pub not_less : (n : ℕ) → ltb n n ≡ false
not_less n = ground arith

-- a leaf ----------------------------------------------------------------------------------------

module _ (load : Bytes → Result Node) (f : ℕ) (lv : Bytes) (m : Mark) where
  delete_leaf : (key : Bytes) → (delete load (suc f) (leaf_node key lv m) key).1 ≡ ok (true, absent)
  unfolding delete
  delete_leaf key = rw (prefix_len_self key, same_nat (length key)) refl

  pub delete-leaf :
      (e : Bool) (lkey key value : Bytes)
      → find (leaf_node lkey lv m) key ≡ some value
      → Deleted e (leaf_node lkey lv m) key (delete load (suc f) (leaf_node lkey lv m) key).1
  unfolding find
  delete-leaf e lkey key value b = elim (Bool-cases (bytes_eq key lkey)) [
    | inl t ↦ rw (← (bytes_eq_iff key lkey).0 t) record {
      child = absent;
      says = delete_leaf key;
      shape = gone;
      kind = λ h. cc;
      found = λ j _. elim (Bool-cases (bytes_eq j key)) [ inl u ↦ rw u refl | inr u ↦ rw u refl ];
    }
    | inr t ↦ let b' : none ≡ some value = rw t at b in cc
  ]
