-- ===== src/Trie/Position.antt =====
-- getChildPosition: the number of slots in use, and the slot that is left.
use elrond_go.Prelude.{
  ℕ, zero, suc, ◌+◌, ◌<◌, ◌≡◌, refl, inl, inr, false, arith, ◌==◌, if◌then◌else◌, Bool-cases,
}
use elrond_go.Prelude.Bytes.{Bytes}
use elrond_go.Trie.Node.{
  Child, absent, present, Children, nil, cons, is_empty, is_slot_empty, is_absent, get_slot, size,
  get_child_position, get_child_position_from,
}
use elrond_go.Trie.Map.{used, in_use, in_use-le-used}

unfoldable pub slot_use : Children → ℕ → ℕ
slot_use cs i = in_use (get_slot cs i).0 (get_slot cs i).1

-- the one slot that is in use
pub record OnlySlot (cs : Children) (q : ℕ) : Type 0 where
  pub in_size : q < size cs
  pub in_use_there : slot_use cs q ≡ 1
  pub elsewhere : (j : ℕ) → (q == j) ≡ false → slot_use cs j ≡ 0

slot_empty-in_use :
    (enc : Bytes) (c : Child) → in_use enc c ≡ (if is_slot_empty enc c then 0 else 1)
unfolding is_slot_empty is_absent
slot_empty-in_use enc absent = refl
slot_empty-in_use enc (present n) = refl

used-cons :
    (enc : Bytes) (c : Child) (cs : Children) → used (cons enc c cs) ≡ in_use enc c + used cs
unfolding used
used-cons enc absent cs = elim (Bool-cases (is_empty enc)) [
  | inl t ↦ rw t (omega arith)
  | inr t ↦ rw t (omega arith)
]
used-cons enc (present n) cs = omega arith

counted :
    (i : ℕ) (enc : Bytes) (c : Child) (cs : Children) (n p : ℕ)
    → get_child_position_from i (cons enc c cs) (n, p)
      ≡ get_child_position_from (suc i) cs (if is_slot_empty enc c then (n, p) else (suc n, i))
unfolding get_child_position_from
counted i enc c cs n p = refl

pub count-get_child_position_from :
    (i : ℕ) (cs : Children) (n p : ℕ) → (get_child_position_from i cs (n, p)).0 ≡ n + used cs
count-get_child_position_from i nil n p = unfold get_child_position_from used in omega arith
count-get_child_position_from i (cons enc c cs) n p = elim (Bool-cases (is_slot_empty enc c)) [
  | inl t ↦
      rw (counted i enc c cs n p, used-cons enc c cs, slot_empty-in_use enc c, t)
        (omega (arith, count-get_child_position_from (suc i) cs n p))
  | inr t ↦
      rw (counted i enc c cs n p, used-cons enc c cs, slot_empty-in_use enc c, t)
        (omega (arith, count-get_child_position_from (suc i) cs (suc n) i))
]

nothing_used :
    (i : ℕ) (cs : Children) (n p : ℕ) → used cs ≡ 0 → get_child_position_from i cs (n, p) ≡ (n, p)
unfolding get_child_position_from used
nothing_used i nil n p h = refl
nothing_used i (cons enc c cs) n p h =
    let u : in_use enc c + used cs ≡ 0 = rw (used-cons enc c cs) at h in
    let v = slot_empty-in_use enc c in
    elim (Bool-cases (is_slot_empty enc c)) [
      | inl t ↦ rw t (nothing_used (suc i) cs n p (omega (arith, u)))
      | inr t ↦ let w : in_use enc c ≡ 1 = rw t at v in absurd (omega (arith, u, w))
    ]

data LastAt (i : ℕ) (cs : Children) (r : ℕ × ℕ) : Type 0 where
  last_at : (q : ℕ) → r.1 ≡ i + q → OnlySlot cs q → LastAt i cs r

later :
    (i : ℕ) (enc : Bytes) (c : Child) (cs : Children) (r : ℕ × ℕ)
    → in_use enc c ≡ 0
    → LastAt (suc i) cs r
    → LastAt i (cons enc c cs) r
unfolding slot_use get_slot size
later i enc c cs r w (last_at q e o) = last_at (suc q) (omega (arith, e)) (record {
  in_size = omega (arith, o.in_size);
  in_use_there = o.in_use_there;
  elsewhere = λ j d. at j d;
})
  where
    at : (j : ℕ) → (suc q == j) ≡ false → slot_use (cons enc c cs) j ≡ 0
    at zero d = w
    at (suc j) d = let t : (suc q == suc j) ≡ (q == j) = ground arith in o.elsewhere j (rw t at d)

first_only :
    (enc : Bytes) (c : Child) (cs : Children)
    → in_use enc c ≡ 1
    → used cs ≡ 0
    → OnlySlot (cons enc c cs) 0
unfolding slot_use get_slot size
first_only enc c cs w z = record {
  in_size = omega arith;
  in_use_there = w;
  elsewhere = λ j d. at j d;
}
  where
    at : (j : ℕ) → (0 == j) ≡ false → slot_use (cons enc c cs) j ≡ 0
    at zero d = ground (arith, d)
    at (suc j) d = omega (arith, z, in_use-le-used cs j)

one_used :
    (i : ℕ) (cs : Children) (n p : ℕ)
    → used cs ≡ 1
    → LastAt i cs (get_child_position_from i cs (n, p))
unfolding get_child_position_from used
one_used i nil n p h = absurd (omega (arith, h))
one_used i (cons enc c cs) n p h =
    let u : in_use enc c + used cs ≡ 1 = rw (used-cons enc c cs) at h in
    let v = slot_empty-in_use enc c in
    elim (Bool-cases (is_slot_empty enc c)) [
      | inl t ↦
          let w : in_use enc c ≡ 0 = rw t at v in
          rw t (later i enc c cs _ w (one_used (suc i) cs n p (omega (arith, u, w))))
      | inr t ↦
          let w : in_use enc c ≡ 1 = rw t at v in
          let z : used cs ≡ 0 = omega (arith, u, w) in
          rw (t, nothing_used (suc i) cs (suc n) i z)
            (last_at 0 (omega arith) (first_only enc c cs w z))
    ]

pub get_child_position-OnlySlot :
    (cs : Children) → used cs ≡ 1 → OnlySlot cs (get_child_position cs).1
unfolding get_child_position
get_child_position-OnlySlot cs h = elim (one_used 0 cs 0 0 h) [
  | last_at q e o ↦
      let e' : (get_child_position_from 0 cs (0, 0)).1 ≡ q = omega (arith, e) in rw e' o
]
