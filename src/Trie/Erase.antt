-- ===== src/Trie/Erase.antt =====
-- Delete of the trie at the root, for keys that are bound and for keys that are not.
use elrond_go.Prelude.{
  suc, ◌≡◌, refl, inl, inr, ◌⊎◌, false, Option, none, some, arith, length, if◌then◌else◌,
  Bool-cases,
}
use elrond_go.Prelude.Bytes.{Bytes, bytes_eq}
use elrond_go.Prelude.Maps.{All}
use elrond_go.Trie.Key.{key_bytes_to_hex, IsByte}
use elrond_go.Trie.Node.{
  Mark, Node, branch_node, Child, absent, present, Children, Err, Result, ok, panics,
}
use elrond_go.Trie.Ops.Delete.{delete}
use elrond_go.Trie.Map.{find}
use elrond_go.Trie.Root.{get, remove}
use elrond_go.Trie.Build.{
  IsRoot, nil_root, root, entries, get-entries, key_bytes_to_hex-IsKey, bytes_eq-hex,
}
use elrond_go.Trie.Remove.{IsLeft, gone, left}
use elrond_go.Trie.RemoveBranch.{delete-Deleted}
use elrond_go.Trie.Unbound.{Missed, panicked, clean, delete-Missed}

record Removed (r : Child) (key : Bytes) (out : Child × Option Err) : Type 0 where
  no_error : out.1 ≡ none
  shape : IsRoot out.0
  unbound :
      (j : Bytes) → All IsByte j → entries out.0 j ≡ (if bytes_eq j key then none else entries r j)

left-IsRoot : (c : Child) → IsLeft false c → IsRoot c
left-IsRoot absent gone = nil_root
left-IsRoot (present n) (left t) = root t

module _ (load : Bytes → Result Node) (key : Bytes) (ok_key : All IsByte key) where
  remove-Removed :
      (r : Child) (value : Bytes)
      → IsRoot r
      → entries r key ≡ some value
      → Removed r key (remove load r key)
  unfolding remove entries find
  remove-Removed absent value nil_root b = cc
  remove-Removed (present n) value (root t) b =
      let hex = key_bytes_to_hex key in
      let d =
        delete-Deleted load (suc (length hex)) false n hex value (omega arith) t
          (key_bytes_to_hex-IsKey key ok_key) b in
      rw d.says record {
        no_error = refl;
        shape = left-IsRoot d.child d.shape;
        unbound = λ j hj.
            rw
              (
                d.found (key_bytes_to_hex j) (key_bytes_to_hex-IsKey j hj),
                bytes_eq-hex j key hj ok_key,
              )
              refl;
      }

  -- Delete of a key that is bound, in a trie in memory, has no error, and leaves a trie in memory.
  pub remove-IsRoot :
      (r : Child) (value : Bytes)
      → IsRoot r
      → entries r key ≡ some value
      → ((remove load r key).1 ≡ none) × IsRoot (remove load r key).0
  remove-IsRoot r value h b = let d = remove-Removed r value h b in (d.no_error, d.shape)

  -- After Delete of a key that is bound, in a trie in memory, Get finds nothing at that key, and
  -- answers as before at every other key.
  pub get-remove :
      (r : Child) (value : Bytes)
      → IsRoot r
      → entries r key ≡ some value
      → (j : Bytes) → All IsByte j
      → (get load (remove load r key).0 j).1
        ≡ (if bytes_eq j key then ok none else (get load r j).1)
  get-remove r value h b j hj =
      let d = remove-Removed r value h b in
      rw
        (
          get-entries load (remove load r key).0 j d.shape hj,
          get-entries load r j h hj,
          d.unbound j hj,
        )
        (elim (Bool-cases (bytes_eq j key)) [ inl t ↦ rw t refl | inr t ↦ rw t refl ])

  -- Delete of a key that is not bound, in a trie in memory whose root is a branch, panics or makes
  -- the root nil without an error.
  pub remove-unbound_branch :
      (cs : Children) (m : Mark)
      → IsRoot (present (branch_node cs m))
      → entries (present (branch_node cs m)) key ≡ none
      → ((remove load (present (branch_node cs m)) key).1 ≡ some panics)
        ⊎ (remove load (present (branch_node cs m)) key ≡ (absent, none))
  unfolding remove entries find
  remove-unbound_branch cs m (root t) b = by_result (
      delete-Missed load (suc (length (key_bytes_to_hex key))) false (branch_node cs m)
        (key_bytes_to_hex key) (omega arith) t (key_bytes_to_hex-IsKey key ok_key) b)
    where
      by_result :
          Missed
            (branch_node cs m)
            (delete load
              (suc (length (key_bytes_to_hex key)))
              (branch_node cs m)
              (key_bytes_to_hex key)).1
          → ((remove load (present (branch_node cs m)) key).1 ≡ some panics)
            ⊎ (remove load (present (branch_node cs m)) key ≡ (absent, none))
      by_result (panicked q) = inl (rw q refl)
      by_result (clean c q k) = inr (rw (q, k refl) refl)
