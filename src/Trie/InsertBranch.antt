-- ===== src/Trie/InsertBranch.antt =====
-- What branchNode.insert does to a trie in memory.
use elrond_go.Prelude.{
  ℕ, suc, ◌<◌, ◌≤◌, ◌≡◌, refl, sym, ◌∙◌, inl, inr, true, false, some, [], ◌∷◌, arith, ◌==◌, ==_iff,
  if◌then◌else◌, length, Bool-cases,
}
use elrond_go.Prelude.Bytes.{Bytes, bytes_eq}
use elrond_go.Trie.Node.{
  Mark, changed, Node, branch_node, Child, absent, present, Children, nil, cons, Result, ok,
  is_empty, new_leaf_node, get_slot, set_slot, size, are_all_empty, is_slot_empty, is_absent,
  is_empty_or_nil,
}
use elrond_go.Trie.Ops.Insert.{insert, insert_in_branch}
use elrond_go.Trie.Ops.Resolve.{resolve_slot}
use elrond_go.Trie.Map.{
  find, find_rest, IsKey, used, in_use, IsTrie, IsChild, branch, free, taken, leaf, size-set_slot,
  get_slot-set_slot, find_at-get_slot, find_at-set_slot, used-set_slot,
}
use elrond_go.Trie.Split.{same_nat, apart_sym}
use elrond_go.Trie.SplitLeaf.{Inserted, in_range}
use elrond_go.Trie.Insert.{Inserts}

-- a branch in use is not empty
none_used : (cs : Children) → are_all_empty cs ≡ true → used cs ≡ 0
unfolding used are_all_empty is_slot_empty is_absent
none_used nil h = refl
none_used (cons enc absent cs) h = elim (Bool-cases (is_empty enc)) [
  | inl t ↦ rw t (none_used cs (rw t at h))
  | inr t ↦ let h' : false ≡ true = rw t at h in cc
]
none_used (cons enc (present n) cs) h = cc

pub are_all_empty-used : (cs : Children) → 2 ≤ used cs → are_all_empty cs ≡ false
are_all_empty-used cs h = elim (Bool-cases (are_all_empty cs)) [
  | inl t ↦ let u = none_used cs t in absurd (omega (arith, h, u))
  | inr t ↦ t
]

in_use-le : (enc : Bytes) (c : Child) → in_use enc c ≤ 1
in_use-le enc absent = elim (Bool-cases (is_empty enc)) [
  | inl t ↦ rw t (omega arith)
  | inr t ↦ rw t (omega arith)
]
in_use-le enc (present n) = omega arith

module _ (load : Bytes → Result Node) (f : ℕ) (cs : Children) (m : Mark) (sz : size cs ≡ 17)
    (many : 2 ≤ used cs)
    (slots : (i : ℕ) → i < 17 → IsChild (i == 16) (get_slot cs i).0 (get_slot cs i).1) (pos : ℕ)
    (key value : Bytes) (lp : pos < 17) where
  in_size : pos < size cs
  in_size = rw sz lp

  insert_branch :
      (enc : Bytes) (c : Child)
      → get_slot cs pos ≡ (enc, c)
      → (insert load (suc f) (branch_node cs m) (pos ∷ key) value).1
        ≡ (insert_in_branch (insert load f) cs m pos key value (resolve_slot load (enc, c))).1
  unfolding insert is_empty_or_nil
  insert_branch enc c g = rw (are_all_empty-used cs many, in_range pos lp, g) refl

  found_with :
      (enc : Bytes) (new : Node)
      → ((js : Bytes)
          → IsKey (pos == 16) js
          → find new js
            ≡ (if bytes_eq js key then some value else find_rest (get_slot cs pos).1 (some js)))
      → (j : Bytes) → IsKey false j
      → find (branch_node (set_slot cs pos enc (present new)) changed) j
        ≡ (if bytes_eq j (pos ∷ key) then some value else find (branch_node cs m) j)
  unfolding find bytes_eq
  found_with enc new h [] hj = absurd hj
  found_with enc new h (i ∷ js) hj =
      rw (find_at-set_slot cs pos i enc (present new) js in_size) (elim (Bool-cases (pos == i)) [
        | inl u ↦
            let e : i ≡ pos = sym ((==_iff pos i).0 u) in
            rw (e, same_nat pos, find_at-get_slot cs pos js) (h js (rw e at hj.1))
        | inr u ↦ rw (u, apart_sym pos i u) refl
      ])

  -- a branch whose slot `pos` got the child `new`
  with_child :
      (enc : Bytes) (new : Node)
      → (insert load (suc f) (branch_node cs m) (pos ∷ key) value).1
        ≡ ok (true, present (branch_node (set_slot cs pos enc (present new)) changed))
      → IsTrie (pos == 16) new
      → ((js : Bytes)
          → IsKey (pos == 16) js
          → find new js
            ≡ (if bytes_eq js key then some value else find_rest (get_slot cs pos).1 (some js)))
      → Inserted false
          (branch_node cs m)
          (pos ∷ key)
          value
          (insert load (suc f) (branch_node cs m) (pos ∷ key) value).1
  with_child enc new says t h = record {
    node = branch_node (set_slot cs pos enc (present new)) changed;
    says = says;
    shape =
        branch (size-set_slot cs pos enc (present new) ∙ sz) still_many
          (λ i li. rw (get_slot-set_slot cs pos i enc (present new) in_size) (slot i li));
    kind = λ _. refl;
    found = found_with enc new h;
  }
    where
      still_many : 2 ≤ used (set_slot cs pos enc (present new))
      still_many = omega (
        arith,
        many,
        used-set_slot cs pos enc (present new) in_size,
        in_use-le (get_slot cs pos).0 (get_slot cs pos).1,
      )

      slot :
          (i : ℕ)
          → i < 17
          → IsChild
              (i == 16)
              (if pos == i then (enc, present new) else get_slot cs i).0
              (if pos == i then (enc, present new) else get_slot cs i).1
      slot i li = elim (Bool-cases (pos == i)) [
        | inl u ↦ rw u (taken (rw (sym ((==_iff pos i).0 u)) t))
        | inr u ↦ rw u (slots i li)
      ]

  insert_branch-free :
      get_slot cs pos ≡ ([], absent)
      → (insert load (suc f) (branch_node cs m) (pos ∷ key) value).1
        ≡ ok (
          true,
          present (branch_node (set_slot cs pos [] (present (new_leaf_node key value))) changed),
        )
  insert_branch-free g =
      rw (insert_branch [] absent g) (unfold resolve_slot insert_in_branch is_empty in refl)

  insert_branch-taken :
      (enc : Bytes) (n n' : Node)
      → get_slot cs pos ≡ (enc, present n)
      → (insert load f n key value).1 ≡ ok (true, present n')
      → (insert load (suc f) (branch_node cs m) (pos ∷ key) value).1
        ≡ ok (true, present (branch_node (set_slot cs pos enc (present n')) changed))
  unfolding insert_in_branch resolve_slot
  insert_branch-taken enc n n' g h = rw (insert_branch enc (present n) g, h) refl

  pub insert-branch :
      (rec : Inserts load f)
      → length (pos ∷ key) < suc f
      → IsKey (pos == 16) key
      → is_empty value ≡ false
      → Inserted false
          (branch_node cs m)
          (pos ∷ key)
          value
          (insert load (suc f) (branch_node cs m) (pos ∷ key) value).1
  insert-branch rec lt hk filled =
      by_slot (get_slot cs pos).0 (get_slot cs pos).1 refl (slots pos lp)
    where
      by_slot :
          (enc : Bytes) (c : Child)
          → get_slot cs pos ≡ (enc, c)
          → IsChild (pos == 16) enc c
          → Inserted false
              (branch_node cs m)
              (pos ∷ key)
              value
              (insert load (suc f) (branch_node cs m) (pos ∷ key) value).1
      by_slot enc absent g free =
          with_child [] (new_leaf_node key value) (insert_branch-free g)
            (unfold new_leaf_node in leaf hk filled)
            (λ js hjs. rw g (unfold find new_leaf_node in refl))
      by_slot enc (present n) g (taken t) =
          let r = rec (pos == 16) n key value (omega (arith, lt)) t hk filled in
          with_child enc r.node (insert_branch-taken enc n r.node g r.says) r.shape
            (λ js hjs. rw g (unfold find in r.found js hjs))
