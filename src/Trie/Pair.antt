-- ===== src/Trie/Pair.antt =====
-- The branch with two children that a leaf or an extension splits into.
use elrond_go.Prelude.{
  ℕ, zero, suc, ◌+◌, ◌<◌, ◌≡◌, refl, ◌∙◌, inl, inr, false, none, some, [], arith, ◌==◌, ==_iff,
  if◌then◌else◌, Bool-cases,
}
use elrond_go.Prelude.Bytes.{Bytes}
use elrond_go.Trie.Node.{
  branch_node, Child, absent, Children, Slot, is_empty, changed, empty_children, no_children,
  get_slot, set_slot, size,
}
use elrond_go.Trie.Map.{
  find, find_rest, find_at, used, in_use, IsTrie, IsChild, branch, free, find_at-get_slot,
  size-set_slot, get_slot-set_slot, used-set_slot,
}

empty-slot : (n i : ℕ) → get_slot (empty_children n) i ≡ ([], absent)
unfolding get_slot empty_children
empty-slot zero i = refl
empty-slot (suc n) zero = refl
empty-slot (suc n) (suc i) = empty-slot n i

pub get_slot-no_children : (i : ℕ) → get_slot no_children i ≡ ([], absent)
unfolding no_children
get_slot-no_children i = empty-slot 17 i

size-no_children : size no_children ≡ 17
unfolding no_children size
size-no_children = refl

used-no_children : used no_children ≡ 0
unfolding no_children used is_empty
used-no_children = refl

abbrev pub pair : ℕ → ℕ → Child → Child → Children
pair b a old new = set_slot (set_slot no_children b [] old) a [] new

module _ (b a : ℕ) (old new : Child) (lb : b < 17) (la : a < 17) (apart : (a == b) ≡ false) where
  abbrev both : Children
  both = pair b a old new

  size_first : size (set_slot no_children b [] old) ≡ 17
  size_first = size-set_slot no_children b [] old ∙ size-no_children

  pub size-pair : size both ≡ 17
  size-pair = size-set_slot (set_slot no_children b [] old) a [] new ∙ size_first

  apart' : (b == a) ≡ false
  apart' = ground (arith, apart)

  b_in : b < size no_children
  b_in = rw size-no_children lb

  a_in : a < size (set_slot no_children b [] old)
  a_in = rw size_first la

  -- what stands at a position
  abbrev pub entry : ℕ → Slot
  entry i = if a == i then ([], new) else if b == i then ([], old) else ([], absent)

  pub get_slot-pair : (i : ℕ) → get_slot both i ≡ entry i
  get_slot-pair i =
      rw
        (
          get_slot-set_slot (set_slot no_children b [] old) a i [] new a_in,
          get_slot-set_slot no_children b i [] old b_in,
          get_slot-no_children i,
        )
        refl

  pub find_at-pair :
      (i : ℕ) (key : Bytes)
      → find_at both i key ≡ (
          if a == i
          then find_rest new (some key)
          else if b == i
          then find_rest old (some key)
          else none)
  find_at-pair i key =
      rw (find_at-get_slot both i key, get_slot-pair i)
        (elim (Bool-cases (a == i)) [
          | inl t ↦ rw t refl
          | inr t ↦ elim (Bool-cases (b == i)) [
            | inl u ↦ rw (t, u) refl
            | inr u ↦ rw (t, u) (unfold find in refl)
          ]
        ])

  pub used-pair : used both ≡ in_use [] old + in_use [] new
  used-pair =
      let first = used-set_slot no_children b [] old b_in in
      let second = used-set_slot (set_slot no_children b [] old) a [] new a_in in
      let e : get_slot (set_slot no_children b [] old) a ≡ ([], absent) =
        rw (get_slot-set_slot no_children b a [] old b_in, apart', get_slot-no_children a) refl in
      unfold is_empty in
      omega (arith, rw (get_slot-no_children b, used-no_children) at first, rw e at second)

  pub pair-IsTrie :
      IsChild (b == 16) [] old
      → IsChild (a == 16) [] new
      → in_use [] old ≡ 1
      → in_use [] new ≡ 1
      → IsTrie false (branch_node both changed)
  pair-IsTrie co cn uo un =
      branch size-pair (omega (arith, used-pair)) (λ i h. rw (get_slot-pair i) (at i))
    where
      at : (i : ℕ) → IsChild (i == 16) (entry i).0 (entry i).1
      at i = elim (Bool-cases (a == i)) [
        | inl t ↦ rw t (rw (← (==_iff a i).0 t) cn)
        | inr t ↦ elim (Bool-cases (b == i)) [
          | inl u ↦ rw (t, u) (rw (← (==_iff b i).0 u) co)
          | inr u ↦ rw (t, u) free
        ]
      ]
