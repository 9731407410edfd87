-- ===== src/Trie/Map.antt =====
-- The map that a trie in memory stands for, and the tries that the operations build.
use elrond_go.Prelude.{
  ℕ, zero, suc, ◌+◌, ◌<◌, ◌≤◌, ◌≡◌, refl, ap, sym, inl, inr, Bool, true, false, Option, none, some,
  [], ◌∷◌, arith, ◌==◌, if◌then◌else◌, Bool-cases,
}
use elrond_go.Prelude.Bytes.{Bytes, bytes_eq}
use elrond_go.Trie.Node.{
  Mark, Node, leaf_node, extension_node, branch_node, Child, absent, present, Children, nil, cons,
  is_empty, get_slot, set_slot, size,
}

-- the rest of a key behind a prefix
unfoldable pub strip : Bytes → Bytes → Option Bytes
strip [] key = some key
strip (p ∷ ps) [] = none
strip (p ∷ ps) (k ∷ ks) = let rest = strip ps ks in if p == k then rest else none

-- what a key is bound to: a map, with no database, no marks and no depth
unfoldable mutual
  pub find : Node → Bytes → Option Bytes
  find (leaf_node lkey value m) key = if bytes_eq key lkey then some value else none
  find (extension_node ekey enc c m) key = find_rest c (strip ekey key)
  find (branch_node cs m) [] = none
  find (branch_node cs m) (pos ∷ key) = find_at cs pos key

  pub find_rest : Child → Option Bytes → Option Bytes
  find_rest absent o = none
  find_rest (present n) none = none
  find_rest (present n) (some key) = find n key

  pub find_at : Children → ℕ → Bytes → Option Bytes
  find_at nil pos key = none
  find_at (cons enc c cs) zero key = find_rest c (some key)
  find_at (cons enc c cs) (suc pos) key = find_at cs pos key

-- what can be left of a key in nibbles below a node: after the terminator, nothing; before it, the
-- rest of a key, which ends by the terminator
abbrev pub IsKey : Bool → Bytes → Type 0
IsKey true [] = Unit
IsKey true (x ∷ xs) = ⊥
IsKey false [] = ⊥
IsKey false (x ∷ xs) = (x < 17) × IsKey (x == 16) xs

-- nibbles without the terminator
abbrev pub IsNibbles : Bytes → Type 0
IsNibbles [] = Unit
IsNibbles (x ∷ xs) = (x < 16) × IsNibbles xs

abbrev pub is_branch : Node → Bool
is_branch (branch_node cs m) = true
is_branch n = false

-- how many slots of a branch are in use
unfoldable pub used : Children → ℕ
used nil = 0
used (cons enc absent cs) = if is_empty enc then used cs else suc (used cs)
used (cons enc (present n) cs) = suc (used cs)

-- the tries in memory: leaves hold a value, an extension has a path and a branch below it, and a
-- branch has 17 slots of which two are in use; nothing is collapsed
mutual
  pub data IsTrie : Bool → Node → Type 0 where
    leaf :
        {e : Bool} {key value : Bytes} {m : Mark}
        → IsKey e key
        → is_empty value ≡ false
        → IsTrie e (leaf_node key value m)
    extension :
        {key enc : Bytes} {n : Node} {m : Mark}
        → is_empty key ≡ false
        → IsNibbles key
        → is_branch n ≡ true
        → IsTrie false n
        → IsTrie false (extension_node key enc (present n) m)
    branch :
        {cs : Children} {m : Mark}
        → size cs ≡ 17
        → 2 ≤ used cs
        → ((i : ℕ) → i < 17 → IsChild (i == 16) (get_slot cs i).0 (get_slot cs i).1)
        → IsTrie false (branch_node cs m)

  pub data IsChild : Bool → Bytes → Child → Type 0 where
    free : {e : Bool} → IsChild e [] absent
    taken : {e : Bool} {enc : Bytes} {n : Node} → IsTrie e n → IsChild e enc (present n)

pub find_at-get_slot :
    (cs : Children) (i : ℕ) (key : Bytes)
    → find_at cs i key ≡ find_rest (get_slot cs i).1 (some key)
unfolding find get_slot
find_at-get_slot nil i key = refl
find_at-get_slot (cons enc c cs) zero key = refl
find_at-get_slot (cons enc c cs) (suc i) key = find_at-get_slot cs i key

pub size-set_slot :
    (cs : Children) (i : ℕ) (enc : Bytes) (c : Child) → size (set_slot cs i enc c) ≡ size cs
unfolding size set_slot
size-set_slot nil i enc c = refl
size-set_slot (cons e d cs) zero enc c = refl
size-set_slot (cons e d cs) (suc i) enc c = ap suc (size-set_slot cs i enc c)

pub get_slot-set_slot :
    (cs : Children) (i j : ℕ) (enc : Bytes) (c : Child)
    → i < size cs
    → get_slot (set_slot cs i enc c) j ≡ (if i == j then (enc, c) else get_slot cs j)
unfolding size set_slot get_slot
get_slot-set_slot nil i j enc c h = elim h [ ]
get_slot-set_slot (cons e d cs) zero zero enc c h = refl
get_slot-set_slot (cons e d cs) zero (suc j) enc c h =
    let t : (0 == suc j) ≡ false = ground arith in rw t refl
get_slot-set_slot (cons e d cs) (suc i) zero enc c h =
    let t : (suc i == 0) ≡ false = ground arith in rw t refl
get_slot-set_slot (cons e d cs) (suc i) (suc j) enc c h =
    let t : (suc i == suc j) ≡ (i == j) = ground arith in
    rw t (get_slot-set_slot cs i j enc c (omega arith))

pub find_at-set_slot :
    (cs : Children) (i j : ℕ) (enc : Bytes) (c : Child) (key : Bytes)
    → i < size cs
    → find_at (set_slot cs i enc c) j key
      ≡ (if i == j then find_rest c (some key) else find_at cs j key)
find_at-set_slot cs i j enc c key h =
    rw (find_at-get_slot (set_slot cs i enc c) j key, get_slot-set_slot cs i j enc c h)
      (elim (Bool-cases (i == j)) [
        | inl t ↦ rw t refl
        | inr t ↦ rw t (sym (find_at-get_slot cs j key))
      ])

-- 1 where a slot is in use
abbrev pub in_use : Bytes → Child → ℕ
in_use enc absent = if is_empty enc then 0 else 1
in_use enc (present n) = 1

pub used-set_slot :
    (cs : Children) (i : ℕ) (enc : Bytes) (c : Child)
    → i < size cs
    → used (set_slot cs i enc c) + in_use (get_slot cs i).0 (get_slot cs i).1
      ≡ used cs + in_use enc c
unfolding size set_slot get_slot used
used-set_slot nil i enc c h = elim h [ ]
used-set_slot (cons e absent cs) zero enc absent h = ground arith
used-set_slot (cons e absent cs) zero enc (present n) h = ground arith
used-set_slot (cons e (present n) cs) zero enc absent h = ground arith
used-set_slot (cons e (present n) cs) zero enc (present k) h = ground arith
used-set_slot (cons e absent cs) (suc i) enc c h = ground (arith, used-set_slot cs i enc c)
used-set_slot (cons e (present n) cs) (suc i) enc c h = ground (arith, used-set_slot cs i enc c)

pub in_use-le-used : (cs : Children) (i : ℕ) → in_use (get_slot cs i).0 (get_slot cs i).1 ≤ used cs
unfolding get_slot used is_empty
in_use-le-used nil i = omega arith
in_use-le-used (cons e absent cs) zero = ground arith
in_use-le-used (cons e (present n) cs) zero = omega arith
in_use-le-used (cons e absent cs) (suc i) = ground (arith, in_use-le-used cs i)
in_use-le-used (cons e (present n) cs) (suc i) = omega (arith, in_use-le-used cs i)
