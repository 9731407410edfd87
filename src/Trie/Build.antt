-- ===== src/Trie/Build.antt =====
-- insert on every trie in memory, and Update and Get at the root against the map that it stands for.
use elrond_go.Prelude.{
  some-eq, ◌/◌, ◌%◌, ℕ, zero, suc, ◌<◌, ◌≡◌, refl, ap, inl, inr, false, Option, none, some, [], ◌∷◌,
  arith, if◌then◌else◌, length, Bool-cases,
}
use elrond_go.Prelude.Bytes.{Bytes, bytes_eq, bytes_eq_iff}
use elrond_go.Prelude.Maps.{All}
use elrond_go.Trie.Node.{
  Node, leaf_node, extension_node, branch_node, Child, absent, present, Result, ok, Err, is_empty,
  new_leaf_node,
}
use elrond_go.Trie.Key.{
  key_bytes_to_hex, IsByte, hex_to_key_bytes, hex_to_key_bytes-key_bytes_to_hex,
}
use elrond_go.Trie.Root.{get, update, put}
use elrond_go.Trie.Lookup.{try_get-find}
use elrond_go.Trie.Map.{find, find_rest, IsKey, IsTrie, branch, extension, leaf}
use elrond_go.Trie.Split.{not_end}
use elrond_go.Trie.Insert.{Inserts, insert-leaf, insert-extension}
use elrond_go.Trie.InsertBranch.{insert-branch}

-- insert succeeds on every trie in memory where the depth allows for the key, and gives a trie that
-- binds the key to the value and every other key to what it was bound to.
pub insert-Inserted : (load : Bytes → Result Node) (f : ℕ) → Inserts load f
insert-Inserted load zero e n key value lt t h filled = absurd (omega (arith, lt))
insert-Inserted load (suc f) e (leaf_node lkey lv m) key value lt (leaf hl fl) h filled =
    insert-leaf load f key value filled e lkey lv m h hl fl
insert-Inserted load (suc f) e (extension_node ekey enc c m) key value lt
      (extension {n = n} some_path path is_b t) h filled =
    insert-extension load f (insert-Inserted load f) ekey enc n m is_b some_path path t key value
      filled lt h
insert-Inserted load (suc f) e (branch_node cs m) [] value lt (branch sz many slots) h filled =
    absurd h
insert-Inserted load (suc f) e (branch_node cs m) (pos ∷ key) value lt (branch sz many slots) h
      filled =
    insert-branch load f cs m sz many slots pos key value h.0 (insert-Inserted load f) lt h.1 filled

-- the root ---------------------------------------------------------------------------------------

-- the nil root, or a trie in memory for keys in nibbles
pub data IsRoot : Child → Type 0 where
  nil_root : IsRoot absent
  root : {n : Node} → IsTrie false n → IsRoot (present n)

-- the map from keys in bytes that a root stands for
unfoldable pub entries : Child → Bytes → Option Bytes
unfolding find
entries c key = find_rest c (some (key_bytes_to_hex key))

hex_digit : (b : ℕ) → b < 256 → b / 16 < 16
hex_digit b h = omega (arith, h)

low_digit : (b : ℕ) → b % 16 < 16
low_digit b = omega arith

pub key_bytes_to_hex-IsKey : (key : Bytes) → All IsByte key → IsKey false (key_bytes_to_hex key)
unfolding key_bytes_to_hex
key_bytes_to_hex-IsKey [] h = (omega arith, tt)
key_bytes_to_hex-IsKey (b ∷ key) h =
    let hi = hex_digit b h.0 in
    let lo = low_digit b in
    rw (not_end (b / 16) hi, not_end (b % 16) lo)
      (omega (arith, hi), (omega (arith, lo), key_bytes_to_hex-IsKey key h.1))

pub bytes_eq-hex :
    (a b : Bytes)
    → All IsByte a
    → All IsByte b
    → bytes_eq (key_bytes_to_hex a) (key_bytes_to_hex b) ≡ bytes_eq a b
bytes_eq-hex a b ha hb = elim (Bool-cases (bytes_eq a b)) [
  | inl t ↦
      let e = (bytes_eq_iff a b).0 t in
      rw (t, e) ((bytes_eq_iff (key_bytes_to_hex b) (key_bytes_to_hex b)).1 refl)
  | inr t ↦ rw t (elim (Bool-cases (bytes_eq (key_bytes_to_hex a) (key_bytes_to_hex b))) [
    | inl u ↦
        let p : hex_to_key_bytes (key_bytes_to_hex a) ≡ hex_to_key_bytes (key_bytes_to_hex b) =
          ap hex_to_key_bytes ((bytes_eq_iff (key_bytes_to_hex a) (key_bytes_to_hex b)).0 u) in
        let q : some a ≡ some b =
          rw (hex_to_key_bytes-key_bytes_to_hex a ha, hex_to_key_bytes-key_bytes_to_hex b hb) at
            p in
        let w = (bytes_eq_iff a b).1 (some-eq q) in cc
    | inr u ↦ u
  ])
]

-- Get answers with what the map says, and leaves the trie as it is.
pub get-entries :
    (load : Bytes → Result Node) (r : Child) (key : Bytes)
    → IsRoot r
    → All IsByte key
    → get load r key ≡ (r, ok (entries r key))
unfolding get entries find
get-entries load absent key nil_root h = refl
get-entries load (present n) key (root t) h =
    rw
      (try_get-find load (suc (length (key_bytes_to_hex key))) false n (key_bytes_to_hex key)
        (omega arith) t (key_bytes_to_hex-IsKey key h))
      refl

-- what Update has to do
record Updated (r : Child) (key value : Bytes) (out : Child × Option Err) : Type 0 where
  no_error : out.1 ≡ none
  shape : IsRoot out.0
  bound :
      (j : Bytes)
      → All IsByte j
      → entries out.0 j ≡ (if bytes_eq j key then some value else entries r j)

put-Updated :
    (load : Bytes → Result Node) (r : Child) (key value : Bytes)
    → IsRoot r
    → All IsByte key
    → is_empty value ≡ false
    → Updated r key value (put load r (key_bytes_to_hex key) value)
unfolding put entries find
put-Updated load absent key value nil_root h fl = record {
  no_error = refl;
  shape = root (unfold new_leaf_node in leaf (key_bytes_to_hex-IsKey key h) fl);
  bound = λ j hj. rw (bytes_eq-hex j key hj h) refl;
}
put-Updated load (present n) key value (root t) h fl =
    let hex = key_bytes_to_hex key in
    let i =
      insert-Inserted load (suc (length hex)) false n hex value (omega arith) t
        (key_bytes_to_hex-IsKey key h) fl in
    rw i.says record {
      no_error = refl;
      shape = root i.shape;
      bound = λ j hj.
          rw (i.found (key_bytes_to_hex j) (key_bytes_to_hex-IsKey j hj), bytes_eq-hex j key hj h)
            refl;
    }

module _ (load : Bytes → Result Node) (r : Child) (key value : Bytes) (ok_root : IsRoot r)
    (ok_key : All IsByte key) (filled : is_empty value ≡ false) where
  updated : Updated r key value (update load r key value)
  updated = unfold update in rw filled (put-Updated load r key value ok_root ok_key filled)

  -- Update with a value that is not empty, on a trie in memory, has no error, and leaves a trie in
  -- memory.
  pub update-IsRoot : ((update load r key value).1 ≡ none) × IsRoot (update load r key value).0
  update-IsRoot = (updated.no_error, updated.shape)

  -- After Update with a value that is not empty, on a trie in memory, Get answers with that value at
  -- that key, and as before at every other key.
  pub get-update :
      (j : Bytes)
      → All IsByte j
      → (get load (update load r key value).0 j).1
        ≡ (if bytes_eq j key then ok (some value) else (get load r j).1)
  get-update j hj =
      rw
        (
          get-entries load (update load r key value).0 j updated.shape hj,
          get-entries load r j ok_root hj,
          updated.bound j hj,
        )
        (elim (Bool-cases (bytes_eq j key)) [ inl t ↦ rw t refl | inr t ↦ rw t refl ])
