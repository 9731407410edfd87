-- ===== src/Trie/Insert.antt =====
-- What insert does to a trie in memory: leafNode.insert, extensionNode.insert, branchNode.insert.
use elrond_go.Prelude.{
  ℕ, suc, ◌<◌, ◌≤◌, ◌≡◌, refl, inl, inr, Bool, true, false, Option, none, some, [], ◌∷◌, ◌++◌,
  arith, ◌==◌, if◌then◌else◌, length, drop, Bool-cases,
}
use elrond_go.Prelude.Bytes.{Bytes, bytes_eq, bytes_eq_iff}
use elrond_go.Trie.Key.{prefix_len}
use elrond_go.Trie.Node.{
  Mark, changed, Node, leaf_node, extension_node, present, Result, ok, is_empty, new_extension_node,
  is_empty_or_nil, is_slot_empty, is_absent,
}
use elrond_go.Trie.Ops.Insert.{insert, insert_in_extension, split_leaf, split_extension}
use elrond_go.Trie.Ops.Resolve.{resolve_slot}
use elrond_go.Trie.Map.{
  find, find_rest, strip, IsKey, IsNibbles, is_branch, IsTrie, leaf, extension,
}
use elrond_go.Trie.Split.{
  Diverge, diverge, IsKey-Diverge, through, parts, path_cases, IsKey-append, IsKey-path, strip-some,
  bytes_eq-append, drop-append_self, same_nat, strip-none,
}
use elrond_go.Trie.SplitLeaf.{Inserted, split_leaf_lem}
use elrond_go.Trie.SplitExtension.{split_extension_lem}

-- a leaf ----------------------------------------------------------------------------------------

module _ (load : Bytes → Result Node) (f : ℕ) (key value : Bytes)
    (filled : is_empty value ≡ false) where
  insert_leaf-same :
      (lv : Bytes) (m : Mark)
      → is_empty lv ≡ false
      → (insert load (suc f) (leaf_node key lv m) key value).1
        ≡ ok (true, present (leaf_node key value changed))
  unfolding insert
  insert_leaf-same lv m fl = rw (fl, (bytes_eq_iff key key).1 refl) refl

  insert_leaf-other :
      (lkey lv : Bytes) (m : Mark)
      → is_empty lv ≡ false
      → bytes_eq key lkey ≡ false
      → (insert load (suc f) (leaf_node lkey lv m) key value).1 ≡ split_leaf lkey lv key value
  unfolding insert
  insert_leaf-other lkey lv m fl d = rw (fl, d) refl

  leaf_same :
      (e : Bool) (lv : Bytes) (m : Mark)
      → IsKey e key
      → is_empty lv ≡ false
      → Inserted e
          (leaf_node key lv m)
          key
          value
          (insert load (suc f) (leaf_node key lv m) key value).1
  leaf_same e lv m h fl = record {
    node = leaf_node key value changed;
    says = insert_leaf-same lv m fl;
    shape = leaf h filled;
    kind = λ h. cc;
    found = λ j _.
        unfold find in elim (Bool-cases (bytes_eq j key)) [ inl t ↦ rw t refl | inr t ↦ rw t refl ];
  }

  leaf_parts :
      (e : Bool) (lkey lv : Bytes) (m : Mark)
      → IsKey e key
      → IsKey e lkey
      → is_empty lv ≡ false
      → Diverge key lkey
      → Inserted e (leaf_node lkey lv m) key value (split_leaf lkey lv key value)
  leaf_parts e lkey lv m h hl fl (diverge common a b x y p q ne len) =
      let pa = IsKey-append e common a x (rw p at h) in
      let pb = IsKey-append e common b y (rw q at hl) in
      rw (p, q, pa.open_end)
        (split_leaf_lem common x y value a b (rw pa.open_end at pa) ne (rw (p, q) at len) filled
          (rw pa.open_end at pb) lv m fl)

  pub insert-leaf :
      (e : Bool) (lkey lv : Bytes) (m : Mark)
      → IsKey e key
      → IsKey e lkey
      → is_empty lv ≡ false
      → Inserted e
          (leaf_node lkey lv m)
          key
          value
          (insert load (suc f) (leaf_node lkey lv m) key value).1
  insert-leaf e lkey lv m h hl fl = elim (Bool-cases (bytes_eq key lkey)) [
    | inl t ↦ rw (← (bytes_eq_iff key lkey).0 t) (leaf_same e lv m h fl)
    | inr t ↦
        rw (insert_leaf-other lkey lv m fl t)
          (leaf_parts e lkey lv m h hl fl (IsKey-Diverge e key lkey h hl t))
  ]

-- an extension ----------------------------------------------------------------------------------

-- the induction hypothesis: insert with this fuel
abbrev pub Inserts : (Bytes → Result Node) → ℕ → Type 0
Inserts load f =
    (e : Bool) (n : Node) (key value : Bytes)
    → length key < f
    → IsTrie e n
    → IsKey e key
    → is_empty value ≡ false
    → Inserted e n key value (insert load f n key value).1

pub shorter :
    (p rest : Bytes) {f : ℕ} → is_empty p ≡ false → length (p ++ rest) < suc f → length rest < f
unfolding is_empty
shorter [] rest h lt = cc
shorter (k ∷ p) rest h lt = omega (arith, lt, longer p rest)
  where
    longer : (p rest : Bytes) → length rest ≤ length (p ++ rest)
    longer [] rest = omega arith
    longer (k ∷ p) rest = omega (arith, longer p rest)

IsNibbles-append :
    (common : Bytes) (b : ℕ) (y : Bytes) → IsNibbles (common ++ b ∷ y) → (b < 16) × IsNibbles y
IsNibbles-append [] b y h = h
IsNibbles-append (k ∷ common) b y h = IsNibbles-append common b y h.1

pub not_whole :
    (common : Bytes) (b : ℕ) (y : Bytes) → (length common == length (common ++ b ∷ y)) ≡ false
not_whole [] b y = ground arith
not_whole (k ∷ common) b y = ground (arith, not_whole common b y)

module _ (load : Bytes → Result Node) (f : ℕ) (rec : Inserts load f) (ekey enc : Bytes) (n : Node)
    (m : Mark) (is_b : is_branch n ≡ true) (some_path : is_empty ekey ≡ false)
    (path : IsNibbles ekey) (tn : IsTrie false n) (key value : Bytes)
    (filled : is_empty value ≡ false) where
  abbrev ext : Node
  ext = extension_node ekey enc (present n) m

  descends :
      (n' : Node)
      → prefix_len key ekey ≡ length ekey
      → (insert load f n (drop (length ekey) key) value).1 ≡ ok (true, present n')
      → (insert load (suc f) ext key value).1
        ≡ ok (true, present (new_extension_node ekey (present n')))
  unfolding insert insert_in_extension resolve_slot is_empty_or_nil is_slot_empty is_absent
  descends n' p h = rw (p, same_nat (length ekey), h) refl

  splits_off :
      (prefix_len key ekey == length ekey) ≡ false
      → (insert load (suc f) ext key value).1 ≡ split_extension ekey (present n) key value
  unfolding insert insert_in_extension resolve_slot is_empty_or_nil is_slot_empty is_absent
  splits_off p = rw p refl

  found-through :
      (n' : Node) (rest : Bytes)
      → key ≡ ekey ++ rest
      → ((js : Bytes)
          → IsKey false js
          → find n' js ≡ (if bytes_eq js rest then some value else find n js))
      → (j : Bytes) → IsKey false j
      → find (new_extension_node ekey (present n')) j
        ≡ (if bytes_eq j key then some value else find ext j)
  unfolding find new_extension_node
  found-through n' rest p h j hj = rw p (by_strip (strip ekey j) refl)
    where
      by_strip :
          (o : Option Bytes)
          → strip ekey j ≡ o
          → find_rest (present n') (strip ekey j) ≡ (
              if bytes_eq j (ekey ++ rest)
              then some value
              else find_rest (present n) (strip ekey j))
      by_strip none e = rw (e, strip-none ekey j rest e) refl
      by_strip (some js) e =
          let q : j ≡ ekey ++ js = strip-some ekey j js e in
          let d : bytes_eq j (ekey ++ rest) ≡ bytes_eq js rest =
            rw q (bytes_eq-append ekey js rest) in
          rw (e, d) (h js (IsKey-path ekey js path (rw q at hj)))

  ext_through :
      (rest : Bytes)
      → key ≡ ekey ++ rest
      → IsKey false rest
      → prefix_len key ekey ≡ length ekey
      → length key < suc f
      → Inserted false ext key value (insert load (suc f) ext key value).1
  ext_through rest p h len lt =
      let d : drop (length ekey) key ≡ rest = rw p (drop-append_self ekey rest) in
      let r = rec false n rest value (shorter ekey rest some_path (rw p at lt)) tn h filled in
      record {
        node = new_extension_node ekey (present r.node);
        says = descends r.node len (rw d r.says);
        shape = unfold new_extension_node in extension some_path path (r.kind is_b) r.shape;
        kind = λ h. cc;
        found = found-through r.node rest p r.found;
      }

  ext_parts :
      IsKey false key
      → Diverge key ekey
      → Inserted false ext key value (insert load (suc f) ext key value).1
  ext_parts h (diverge common a b x y p q ne len) =
      let pa = IsKey-append false common a x (rw p at h) in
      let below = IsNibbles-append common b y (rw q at path) in
      let short : (prefix_len key ekey == length ekey) ≡ false =
        rw (len, q) (not_whole common b y) in
      rw (splits_off short) (
        rw (p, q)
          (split_extension_lem common x y value a b pa below.0 below.1 ne (rw (p, q) at len) filled
            n is_b tn enc m))

  pub insert-extension :
      length key < suc f
      → IsKey false key
      → Inserted false ext key value (insert load (suc f) ext key value).1
  insert-extension lt h = elim (path_cases ekey key path h) [
    | through rest p k len ↦ ext_through rest p k len lt
    | parts d ↦ ext_parts h d
  ]
