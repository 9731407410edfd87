-- ===== src/Sharding/Selected.antt =====
-- checkIndex: where there are fewer selected validators than eligible ones, it ends at one that is not
-- selected.
use elrond_go.Prelude.{
  ℕ, zero, suc, ◌≡◌, refl, sym, ap, ◌∙◌, ◌+◌, ◌-◌, ◌%◌, ◌<◌, ◌≤◌, ◌⊎◌, inl, inr, ◌≢◌, true, false,
  some, List, [], ◌∷◌, arith, ltb, if◌then◌else◌, Bool-cases, some-eq, length, get_elem?,
}
use native.Mathlib.Nat.{mod-eq_of_lt, mod_self}
use elrond_go.Prelude.Bytes.{bytes_eq, bytes_eq_iff}
use elrond_go.Prelude.Maps.{All}
use elrond_go.Sharding.Nodes.{Validator, Run, finished, validator_is_in_list, check_index}

-- no public key stands twice
abbrev pub NoneTwice : List Validator → Type 0
NoneTwice [] = Unit
NoneTwice (v ∷ vs) = (validator_is_in_list v vs ≡ false) × NoneTwice vs

-- the list without the first validator with a key
unfoldable without : Validator → List Validator → List Validator
without v [] = []
without v (x ∷ xs) =
    let rest = without v xs in if bytes_eq v.pub_key x.pub_key then xs else x ∷ rest

length-without :
    (v : Validator) (xs : List Validator)
    → validator_is_in_list v xs ≡ true
    → length xs ≡ suc (length (without v xs))
unfolding validator_is_in_list without
length-without v [] h = cc
length-without v (x ∷ xs) h = ground (arith, length-without v xs)

in_without :
    (w v : Validator) (xs : List Validator)
    → bytes_eq w.pub_key v.pub_key ≡ false
    → validator_is_in_list w xs ≡ true
    → validator_is_in_list w (without v xs) ≡ true
unfolding validator_is_in_list without
in_without w v [] n h = cc
in_without w v (x ∷ xs) n h = ground (
  arith,
  in_without w v xs,
  bytes_eq_iff w.pub_key x.pub_key,
  bytes_eq_iff v.pub_key x.pub_key,
  bytes_eq_iff w.pub_key v.pub_key,
)

-- a validator of the list whose key is not among the selected ones
pub record Free (eligible selected : List Validator) : Type 0 where
  pub index : ℕ
  pub validator : Validator
  pub at_index : get_elem? eligible index ≡ some validator
  pub below : index < length eligible
  pub unused : validator_is_in_list validator selected ≡ false

Free-cons :
    (v : Validator) (eligible selected : List Validator)
    → Free eligible selected
    → Free (v ∷ eligible) selected
Free-cons v eligible selected f = record {
  index = suc f.index;
  validator = f.validator;
  at_index = f.at_index;
  below = let b = f.below in omega (arith, b);
  unused = f.unused;
}

-- either all are selected, or one is free
all_or_one :
    (eligible selected : List Validator)
    → All (λ v. validator_is_in_list v selected ≡ true) eligible ⊎ Free eligible selected
all_or_one [] selected = inl tt
all_or_one (v ∷ vs) selected = elim (all_or_one vs selected) [
  | inr f ↦ inr (Free-cons v vs selected f)
  | inl a ↦ elim (Bool-cases (validator_is_in_list v selected)) [
    | inl t ↦ inl (t, a)
    | inr t ↦
        inr (record { index = 0; validator = v; at_index = refl; below = omega arith; unused = t })
  ]
]

all_without :
    (v : Validator) (vs selected : List Validator)
    → validator_is_in_list v vs ≡ false
    → All (λ w. validator_is_in_list w selected ≡ true) vs
    → All (λ w. validator_is_in_list w (without v selected) ≡ true) vs
unfolding validator_is_in_list
all_without v [] selected n a = tt
all_without v (w ∷ vs) selected n a =
    let ne : bytes_eq w.pub_key v.pub_key ≡ false =
      ground (arith, n, bytes_eq_iff v.pub_key w.pub_key, bytes_eq_iff w.pub_key v.pub_key) in
    let rest : validator_is_in_list v vs ≡ false = ground (arith, n) in
    (in_without w v selected ne a.0, all_without v vs selected rest a.1)

-- different validators that are all selected are no more than the selected ones
not_more :
    (eligible selected : List Validator)
    → NoneTwice eligible
    → All (λ v. validator_is_in_list v selected ≡ true) eligible
    → length eligible ≤ length selected
not_more [] selected d a = omega arith
not_more (v ∷ vs) selected d a =
    let s = not_more vs (without v selected) d.1 (all_without v vs selected d.0 a.1) in
    omega (arith, s, length-without v selected a.0)

pub one_left :
    (eligible selected : List Validator)
    → NoneTwice eligible
    → length selected < length eligible
    → Free eligible selected
one_left eligible selected d b = elim (all_or_one eligible selected) [
  | inr f ↦ f
  | inl a ↦ absurd (omega (arith, not_more eligible selected d a, b))
]

-- what checkIndex finds
pub record Checked (eligible selected : List Validator) (r : Run ℕ) : Type 0 where
  pub index : ℕ
  pub validator : Validator
  pub result : r ≡ finished index
  pub at_index : get_elem? eligible index ≡ some validator
  pub unused : validator_is_in_list validator selected ≡ false

elem_below :
    (vs : List Validator) (p : ℕ) → p < length vs → (v : Validator) × (get_elem? vs p ≡ some v)
elem_below [] p b = absurd (omega (arith, b))
elem_below (v ∷ vs) zero b = (v, refl)
elem_below (v ∷ vs) (suc p) b = elem_below vs p (omega (arith, b))

-- one step towards an index, around the end of a list of length n
next_index :
    (n p d i : ℕ)
    → p < n
    → i < n
    → (p + suc d ≡ i) ⊎ (p + suc d ≡ i + n)
    → ((p + 1) % n < n) × (((p + 1) % n + d ≡ i) ⊎ ((p + 1) % n + d ≡ i + n))
next_index n p d i b c e = elim (Bool-cases (ltb (p + 1) n)) [
  | inl t ↦
      let w : p + 1 < n = ground arith in
      rw (mod-eq_of_lt w)
        (w, elim e [ inl x ↦ inl (omega (arith, x)) | inr x ↦ inr (omega (arith, x)) ])
  | inr t ↦
      let w : p + 1 ≡ n = ground arith in
      rw (w, mod_self n)
        (
          omega (arith, b),
          elim e [ inl x ↦ absurd (omega (arith, x, w, c)) | inr x ↦ inl (omega (arith, x, w)) ],
        )
]

away_from : (n p d i : ℕ) → p < n → p ≢ i → (p + d ≡ i) ⊎ (p + d ≡ i + n) → suc (d - 1) ≡ d
away_from n p zero i b a e = elim e [
  | inl x ↦ absurd (a (omega (arith, x)))
  | inr x ↦ absurd (omega (arith, x, b))
]
away_from n p (suc d) i b a e = omega arith

module _ (eligible selected : List Validator) (f : Free eligible selected) where
  free_elsewhere :
      (p : ℕ) (v : Validator)
      → get_elem? eligible p ≡ some v
      → validator_is_in_list v selected ≡ true
      → p ≢ f.index
  free_elsewhere p v g t e =
      let i : some v ≡ some f.validator = sym g ∙ ap (get_elem? eligible) e ∙ f.at_index in
      let j : v ≡ f.validator = some-eq i in
      let k = rw j at t in let u = f.unused in ground (arith, k, u)

  -- the distance from an index to the free one, once around at most
  check_index-Checked :
      (fuel d p : ℕ)
      → d < fuel
      → p < length eligible
      → (p + d ≡ f.index) ⊎ (p + d ≡ f.index + length eligible)
      → Checked eligible selected (check_index eligible fuel p selected)
  unfolding check_index
  check_index-Checked zero d p b q e = absurd (omega (arith, b))
  check_index-Checked (suc fuel) d p b q e =
      let g = elem_below eligible p q in
      elim (Bool-cases (validator_is_in_list g.0 selected)) [
        | inr t ↦
            rw (g.1, t, check_index)
              (record { index = p; validator = g.0; result = refl; at_index = g.1; unused = t })
        | inl t ↦
            let away = free_elsewhere p g.0 g.1 t in
            let c = f.below in
            let pos = away_from (length eligible) p d f.index q away e in
            let n = next_index (length eligible) p (d - 1) f.index q c (rw pos e) in
            rw (g.1, t, check_index)
              (check_index-Checked fuel (d - 1) ((p + 1) % length eligible) (omega (arith, pos, b))
                n.0 n.1)
      ]

  pub check_index-finished :
      (p : ℕ)
      → p < length eligible
      → Checked eligible selected (check_index eligible (length eligible) p selected)
  check_index-finished p b =
      let c = f.below in
      elim (Bool-cases (ltb f.index p)) [
        | inr t ↦
            check_index-Checked (length eligible) (f.index - p) p (omega (arith, c)) b
              (inl (ground (arith, t)))
        | inl t ↦
            check_index-Checked (length eligible) (f.index + length eligible - p) p
              (ground (arith, t, b, c)) b (inr (omega (arith, b)))
      ]
