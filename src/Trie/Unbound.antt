-- ===== src/Trie/Unbound.antt =====
-- What delete does to a trie in memory where the key is not bound.
use elrond_go.Prelude.{
  ℕ, zero, suc, ◌<◌, ◌≤◌, ◌≡◌, refl, inl, inr, Bool, true, false, none, some, [], ◌∷◌, ◌++◌, arith,
  ltb, ◌==◌, length, drop, Bool-cases,
}
use elrond_go.Prelude.Bytes.{Bytes, bytes_eq}
use elrond_go.Trie.Key.{prefix_len}
use elrond_go.Trie.Node.{
  Mark, Node, leaf_node, extension_node, branch_node, Child, absent, present, Children, Result, ok,
  err, panics, is_empty, is_absent, is_slot_empty, is_empty_or_nil, get_slot, size,
}
use elrond_go.Trie.Ops.Resolve.{Change, resolve_slot}
use elrond_go.Trie.Ops.Delete.{delete, delete_in_branch, delete_in_extension}
use elrond_go.Trie.Map.{
  find, strip, IsKey, IsNibbles, is_branch, used, IsTrie, IsChild, leaf, extension, branch, free,
  taken, find_at-get_slot,
}
use elrond_go.Trie.Split.{
  diverge, IsKey-Diverge, through, parts, path_cases, strip-append, drop-append_self,
}
use elrond_go.Trie.SplitLeaf.{in_range}
use elrond_go.Trie.Insert.{shorter, not_whole}
use elrond_go.Trie.InsertBranch.{are_all_empty-used}
use elrond_go.Trie.Remove.{not_less}

-- nothing is reported as changed; a branch hands out no node
pub data Missed (n : Node) (r : Result Change) : Type 0 where
  panicked : r ≡ err panics → Missed n r
  clean : (c : Child) → r ≡ ok (false, c) → (is_branch n ≡ true → c ≡ absent) → Missed n r

abbrev Misses : (Bytes → Result Node) → ℕ → Type 0
Misses load f =
    (e : Bool) (n : Node) (key : Bytes)
    → length key < f
    → IsTrie e n
    → IsKey e key
    → find n key ≡ none
    → Missed n (delete load f n key).1

some_key : (key : Bytes) → IsKey false key → is_empty key ≡ false
unfolding is_empty
some_key [] h = absurd h
some_key (k ∷ key) h = refl

shorter_than :
    (common : Bytes) (b : ℕ) (y : Bytes) → ltb (length common) (length (common ++ b ∷ y)) ≡ true
shorter_than [] b y = ground arith
shorter_than (k ∷ common) b y = ground (arith, shorter_than common b y)

module _ (load : Bytes → Result Node) (f : ℕ) where
  miss-leaf :
      (e : Bool) (lkey lv : Bytes) (m : Mark) (key : Bytes)
      → IsKey e lkey
      → IsKey e key
      → find (leaf_node lkey lv m) key ≡ none
      → Missed (leaf_node lkey lv m) (delete load (suc f) (leaf_node lkey lv m) key).1
  unfolding find delete
  miss-leaf e lkey lv m key hl h b = elim (Bool-cases (bytes_eq key lkey)) [
    | inl t ↦ let b' : some lv ≡ none = rw t at b in cc
    | inr t ↦ elim (IsKey-Diverge e key lkey h hl t) [
      | diverge common a c x y p q ne len ↦
          let w : (prefix_len key lkey == length key) ≡ false =
            rw (len, p) (not_whole common a x) in
          clean (present (leaf_node lkey lv m)) (rw w refl) (λ h. cc)
    ]
  ]

  module _ (rec : Misses load f) where
    module _ (ekey enc : Bytes) (n : Node) (m : Mark) (some_path : is_empty ekey ≡ false)
        (path : IsNibbles ekey) (tn : IsTrie false n) (key : Bytes) where
      abbrev ext : Node
      ext = extension_node ekey enc (present n) m

      ext_within :
          (rest : Bytes) (r : Result Change)
          → is_empty key ≡ false
          → prefix_len key ekey ≡ length ekey
          → drop (length ekey) key ≡ rest
          → (delete load f n rest).1 ≡ r
          → Missed n r
          → Missed ext (delete load (suc f) ext key).1
      unfolding delete delete_in_extension resolve_slot is_empty_or_nil is_slot_empty is_absent
      ext_within rest r e len d p (panicked q) =
          panicked (rw (e, len, not_less (length ekey), d, p, q) refl)
      ext_within rest r e len d p (clean c q _) =
          clean (present (extension_node ekey enc (present (delete load f n rest).0) m))
            (rw (e, len, not_less (length ekey), d, p, q) refl) (λ h. cc)

      miss-extension :
          length key < suc f
          → IsKey false key
          → find ext key ≡ none
          → Missed ext (delete load (suc f) ext key).1
      unfolding find
      miss-extension lt h b = elim (path_cases ekey key path h) [
        | through rest p k len ↦
            let s : strip ekey key ≡ some rest = rw p (strip-append ekey rest) in
            ext_within rest (delete load f n rest).1 (some_key key h) len
              (rw p (drop-append_self ekey rest)) refl
              (rec false n rest (shorter ekey rest some_path (rw p at lt)) tn k (rw s at b))
        | parts d ↦ elim d [
          | diverge common a c x y p q ne len ↦
              let w : ltb (prefix_len key ekey) (length ekey) ≡ true =
                rw (len, q) (shorter_than common c y) in
              clean (present ext)
                (unfold delete is_empty_or_nil is_slot_empty is_absent in
                  rw (some_key key h, w) refl)
                (λ h. cc)
        ]
      ]

    module _ (cs : Children) (m : Mark) (sz : size cs ≡ 17) (many : 2 ≤ used cs) (pos : ℕ)
        (key : Bytes) (lp : pos < 17) where
      delete_branch :
          (enc : Bytes) (c : Child)
          → get_slot cs pos ≡ (enc, c)
          → delete load (suc f) (branch_node cs m) (pos ∷ key)
            ≡ delete_in_branch load (delete load f) cs m pos key (resolve_slot load (enc, c))
      unfolding delete is_empty_or_nil
      delete_branch enc c g = rw (are_all_empty-used cs many, in_range pos lp, g) refl

      branch_within :
          (enc : Bytes) (n : Node) (r : Result Change)
          → get_slot cs pos ≡ (enc, present n)
          → (delete load f n key).1 ≡ r
          → Missed n r
          → Missed (branch_node cs m) (delete load (suc f) (branch_node cs m) (pos ∷ key)).1
      unfolding delete_in_branch resolve_slot
      branch_within enc n r g p (panicked q) =
          panicked (rw (delete_branch enc (present n) g, p, q) refl)
      branch_within enc n r g p (clean c q _) =
          clean absent (rw (delete_branch enc (present n) g, p, q) refl) (λ _. refl)

      miss-branch :
          length (pos ∷ key) < suc f
          → IsKey (pos == 16) key
          → IsChild (pos == 16) (get_slot cs pos).0 (get_slot cs pos).1
          → find (branch_node cs m) (pos ∷ key) ≡ none
          → Missed (branch_node cs m) (delete load (suc f) (branch_node cs m) (pos ∷ key)).1
      unfolding find delete_in_branch resolve_slot is_empty
      miss-branch lt hk ch b = by_slot (get_slot cs pos).0 (get_slot cs pos).1 refl ch
        where
          by_slot :
              (enc : Bytes) (c : Child)
              → get_slot cs pos ≡ (enc, c)
              → IsChild (pos == 16) enc c
              → Missed (branch_node cs m) (delete load (suc f) (branch_node cs m) (pos ∷ key)).1
          by_slot enc absent g free = panicked (rw (delete_branch [] absent g) refl)
          by_slot enc (present n) g (taken t) = branch_within enc n (delete load f n key).1 g refl (
              rec (pos == 16) n key (omega (arith, lt)) t hk
                (rw (find_at-get_slot cs pos key, g) at b))

pub delete-Missed : (load : Bytes → Result Node) (f : ℕ) → Misses load f
delete-Missed load zero e n key lt t h b = absurd (omega (arith, lt))
delete-Missed load (suc f) e (leaf_node lkey lv m) key lt (leaf hl fl) h b =
    miss-leaf load f e lkey lv m key hl h b
delete-Missed load (suc f) e (extension_node ekey enc c m) key lt
      (extension {n = n} some_path path is_b t) h b =
    miss-extension load f (delete-Missed load f) ekey enc n m some_path path t key lt h b
delete-Missed load (suc f) e (branch_node cs m) [] lt (branch sz many slots) h b = absurd h
delete-Missed load (suc f) e (branch_node cs m) (pos ∷ key) lt (branch sz many slots) h b =
    miss-branch load f (delete-Missed load f) cs m sz many pos key h.0 lt h.1 (slots pos h.0) b
