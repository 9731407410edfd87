-- ===== src/Trie/Lookup.antt =====
-- tryGet of the three nodes, against the map that a trie stands for.
use mathlib.Core.Path.{subst}
use elrond_go.Prelude.{
  ℕ, zero, suc, ◌<◌, ◌≤◌, ◌≡◌, refl, ap, inl, inr, Bool, true, false, none, some, [], ◌∷◌, arith,
  ltb, ◌==◌, if◌then◌else◌, length, drop, Bool-cases,
}
use elrond_go.Prelude.Bytes.{Bytes, bytes_eq}
use elrond_go.Trie.Node.{
  Mark, Node, leaf_node, extension_node, branch_node, Child, absent, present, Children, nil, cons,
  Result, ok, is_empty, get_slot, set_slot, size, is_slot_empty, is_absent, is_empty_or_nil,
}
use elrond_go.Trie.Ops.Get.{try_get, get_in_branch, get_in_extension, starts_with}
use elrond_go.Trie.Ops.Resolve.{resolve_slot}
use elrond_go.Trie.Map.{
  find, find_at, strip, IsKey, IsNibbles, used, IsTrie, IsChild, branch, extension, free, taken,
  leaf, find_at-get_slot,
}
use elrond_go.Trie.Split.{strip-some, IsKey-path}
use elrond_go.Trie.SplitLeaf.{in_range}
use elrond_go.Trie.Insert.{shorter}
use elrond_go.Trie.InsertBranch.{are_all_empty-used}

strip-starts_with :
    (p key : Bytes) → strip p key ≡ (if starts_with key p then some (drop (length p) key) else none)
unfolding strip starts_with bytes_eq
strip-starts_with [] [] = refl
strip-starts_with [] (k ∷ key) =
    let t : ltb (suc (length key)) 0 ≡ false = ground arith in rw t refl
strip-starts_with (k ∷ p) [] = let t : ltb 0 (suc (length p)) ≡ true = ground arith in rw t refl
strip-starts_with (k ∷ p) (j ∷ key) =
    let t : ltb (suc (length key)) (suc (length p)) ≡ ltb (length key) (length p) = ground arith in
    elim (Bool-cases (k == j)) [
      | inl u ↦ rw (t, u) (strip-starts_with p key)
      | inr u ↦
          rw (t, u)
            (elim (Bool-cases (ltb (length key) (length p))) [
              | inl w ↦ rw w refl
              | inr w ↦ rw w refl
            ])
    ]

set_slot-get_slot : (cs : Children) (i : ℕ) → set_slot cs i (get_slot cs i).0 (get_slot cs i).1 ≡ cs
unfolding set_slot get_slot
set_slot-get_slot nil i = refl
set_slot-get_slot (cons e c cs) zero = refl
set_slot-get_slot (cons e c cs) (suc i) = ap (λ t. cons e c t) (set_slot-get_slot cs i)

-- tryGet leaves the node as it is and answers with what the map says
abbrev Gets : (Bytes → Result Node) → ℕ → Type 0
Gets load f =
    (e : Bool) (n : Node) (key : Bytes)
    → length key < f
    → IsTrie e n
    → IsKey e key
    → try_get load f n key ≡ (n, ok (find n key))

module _ (load : Bytes → Result Node) (f : ℕ) (rec : Gets load f) where
  get-leaf :
      (lkey lv : Bytes) (m : Mark) (key : Bytes)
      → is_empty lv ≡ false
      → try_get load (suc f) (leaf_node lkey lv m) key
        ≡ (leaf_node lkey lv m, ok (find (leaf_node lkey lv m) key))
  unfolding try_get find
  get-leaf lkey lv m key fl = elim (Bool-cases (bytes_eq key lkey)) [
    | inl t ↦ rw (fl, t) refl
    | inr t ↦ rw (fl, t) refl
  ]

  module _ (ekey enc : Bytes) (n : Node) (m : Mark) (some_path : is_empty ekey ≡ false)
      (path : IsNibbles ekey) (tn : IsTrie false n) (key : Bytes) where
    abbrev ext : Node
    ext = extension_node ekey enc (present n) m

    get-extension :
        length key < suc f
        → IsKey false key
        → try_get load (suc f) ext key ≡ (ext, ok (find ext key))
    unfolding try_get find get_in_extension resolve_slot is_empty_or_nil is_slot_empty is_absent
    get-extension lt hk = elim (Bool-cases (starts_with key ekey)) [
      | inl t ↦
          let s : strip ekey key ≡ some (drop (length ekey) key) =
            rw t at (strip-starts_with ekey key) in
          let p = strip-some ekey key (drop (length ekey) key) s in
          let h =
            rec false n (drop (length ekey) key)
              (shorter ekey (drop (length ekey) key) some_path (subst (λ t. length t < suc f) p lt))
              tn
              (IsKey-path ekey (drop (length ekey) key) path (subst (λ t. IsKey false t) p hk)) in
          rw (t, s, h) refl
      | inr t ↦
          let s : strip ekey key ≡ none = rw t at (strip-starts_with ekey key) in rw (t, s) refl
    ]

  module _ (cs : Children) (m : Mark) (sz : size cs ≡ 17) (many : 2 ≤ used cs) (pos : ℕ)
      (key : Bytes) (lp : pos < 17) where
    get_branch :
        (enc : Bytes) (c : Child)
        → get_slot cs pos ≡ (enc, c)
        → try_get load (suc f) (branch_node cs m) (pos ∷ key)
          ≡ get_in_branch (try_get load f) cs m pos key (resolve_slot load (enc, c))
    unfolding try_get is_empty_or_nil
    get_branch enc c g = rw (are_all_empty-used cs many, in_range pos lp, g) refl

    get-branch :
        length (pos ∷ key) < suc f
        → IsKey (pos == 16) key
        → IsChild (pos == 16) (get_slot cs pos).0 (get_slot cs pos).1
        → try_get load (suc f) (branch_node cs m) (pos ∷ key)
          ≡ (branch_node cs m, ok (find (branch_node cs m) (pos ∷ key)))
    unfolding find get_in_branch resolve_slot is_empty
    get-branch lt hk = by_slot (get_slot cs pos).0 (get_slot cs pos).1 refl
      where
        by_slot :
            (enc : Bytes) (c : Child)
            → get_slot cs pos ≡ (enc, c)
            → IsChild (pos == 16) enc c
            → try_get load (suc f) (branch_node cs m) (pos ∷ key)
              ≡ (branch_node cs m, ok (find_at cs pos key))
        by_slot enc absent g free = rw (get_branch [] absent g, find_at-get_slot cs pos key, g) refl
        by_slot enc (present n) g (taken t) =
            let same : set_slot cs pos enc (present n) ≡ cs = rw g at (set_slot-get_slot cs pos) in
            rw
              (
                get_branch enc (present n) g,
                find_at-get_slot cs pos key,
                g,
                rec (pos == 16) n key (omega (arith, lt)) t hk,
                same,
              )
              refl

-- tryGet on a trie in memory answers with what the map says, and leaves the trie as it is.
pub try_get-find : (load : Bytes → Result Node) (f : ℕ) → Gets load f
try_get-find load zero e n key lt t h = absurd (omega (arith, lt))
try_get-find load (suc f) e (leaf_node lkey lv m) key lt (leaf hl fl) h =
    get-leaf load f (try_get-find load f) lkey lv m key fl
try_get-find load (suc f) e (extension_node ekey enc c m) key lt
      (extension {n = n} some_path path is_b t) h =
    get-extension load f (try_get-find load f) ekey enc n m some_path path t key lt h
try_get-find load (suc f) e (branch_node cs m) [] lt (branch sz many slots) h = absurd h
try_get-find load (suc f) e (branch_node cs m) (pos ∷ key) lt (branch sz many slots) h =
    get-branch load f (try_get-find load f) cs m sz many pos key h.0 lt h.1 (slots pos h.0)
