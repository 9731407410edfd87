-- ===== src/Prelude/Maps.antt =====
-- Go maps with integer keys, as association lists with distinct keys, and predicates on lists.
use mathlib.Core.Path.{subst}
use elrond_go.Prelude.{
  ℕ, ◌≡◌, refl, inl, inr, Bool, true, false, Option, none, some, List, [], ◌∷◌, ◌++◌, arith, ◌==◌,
  if◌then◌else◌, Bool-cases, Option-cases,
}

abbrev pub All {ℓ κ} : {A : Type ℓ} → (A → Type κ) → List A → Type κ
All P [] = Unit
All P (x ∷ xs) = P x × All P xs

-- `Any`: the element that holds is kept.
pub data Any {ℓ κ} {A : Type ℓ} (P : A → Type κ) : List A → Type (ℓ ⊔ κ) where
  here : {x : A} {xs : List A} → P x → Any P (x ∷ xs)
  there : {x : A} {xs : List A} → Any P xs → Any P (x ∷ xs)

module _ {ℓ κ} {A : Type ℓ} (P : A → Type κ) where
  pub All-append : (xs ys : List A) → All P xs → All P ys → All P (xs ++ ys)
  All-append [] ys h k = k
  All-append (x ∷ xs) ys h k = (h.0, All-append xs ys h.1 k)

pub All-map {ℓ κ μ} :
    {A : Type ℓ} (P : A → Type κ) (Q : A → Type μ)
    → ((a : A) → P a → Q a)
    → (xs : List A) → All P xs
    → All Q xs
All-map P Q f [] h = tt
All-map P Q f (x ∷ xs) h = (f x h.0, All-map P Q f xs h.1)

-- the sub-list of what passes a test: Go's loops with `continue` and `append`
unfoldable pub keep {ℓ} : {A : Type ℓ} → (A → Bool) → List A → List A
keep p [] = []
keep p (x ∷ xs) = let rest = keep p xs in if p x then x ∷ rest else rest

module _ {ℓ κ} {A : Type ℓ} (P : A → Type κ) (p : A → Bool) where
  pub All-keep : (xs : List A) → All P xs → All P (keep p xs)
  unfolding keep
  All-keep [] h = h
  All-keep (x ∷ xs) h = elim (Bool-cases (p x)) [
    | inl e ↦ rw e (h.0, All-keep xs h.1)
    | inr e ↦ rw e (All-keep xs h.1)
  ]

  pub All-keep_test : ((a : A) → p a ≡ true → P a) → (xs : List A) → All P (keep p xs)
  unfolding keep
  All-keep_test f [] = tt
  All-keep_test f (x ∷ xs) = elim (Bool-cases (p x)) [
    | inl e ↦ rw e (f x e, All-keep_test f xs)
    | inr e ↦ rw e (All-keep_test f xs)
  ]

module _ {ℓ} {V : Type ℓ} where
  unfoldable pub has_key : ℕ → List (ℕ × V) → Bool
  has_key k [] = false
  has_key k ((j, v) ∷ m) = let rest = has_key k m in if j == k then true else rest

  unfoldable pub lookup : ℕ → List (ℕ × V) → Option V
  lookup k [] = none
  lookup k ((j, v) ∷ m) = let rest = lookup k m in if j == k then some v else rest

  unfoldable pub insert : ℕ → V → List (ℕ × V) → List (ℕ × V)
  insert k v [] = (k, v) ∷ []
  insert k v ((j, w) ∷ m) = let rest = insert k v m in if j == k then (k, v) ∷ m else (j, w) ∷ rest

  unfoldable pub delete : ℕ → List (ℕ × V) → List (ℕ × V)
  delete k [] = []
  delete k ((j, w) ∷ m) = let rest = delete k m in if j == k then rest else (j, w) ∷ rest

  -- a range loop whose body replaces or deletes the entry at hand
  unfoldable pub update_each : (ℕ → V → Option V) → List (ℕ × V) → List (ℕ × V)
  update_each f [] = []
  update_each f ((j, w) ∷ m) =
      let rest = update_each f m in elim (f j w) [ none ↦ rest | some v ↦ (j, v) ∷ rest ]

  abbrev pub Distinct : List (ℕ × V) → Type 0
  Distinct [] = Unit
  Distinct ((k, v) ∷ m) = (has_key k m ≡ false) × Distinct m

  -- what a range loop with such a body leaves under a key
  abbrev pub updated : (ℕ → V → Option V) → ℕ → Option V → Option V
  updated f k none = none
  updated f k (some v) = f k v

module _ {ℓ} {V : Type ℓ} where
  pub lookup-insert :
      (j k : ℕ) (v : V) (m : List (ℕ × V))
      → lookup j (insert k v m) ≡ (if k == j then some v else lookup j m)
  unfolding lookup insert
  lookup-insert j k v [] = refl
  lookup-insert j k v ((i, w) ∷ m) = ground (arith, lookup-insert j k v m)

  pub lookup-delete :
      (j k : ℕ) (m : List (ℕ × V)) → lookup j (delete k m) ≡ (if k == j then none else lookup j m)
  unfolding lookup delete
  lookup-delete j k [] = ground arith
  lookup-delete j k ((i, w) ∷ m) = ground (arith, lookup-delete j k m)

  pub lookup-has_key : (k : ℕ) (m : List (ℕ × V)) → has_key k m ≡ false → lookup k m ≡ none
  unfolding lookup has_key
  lookup-has_key k [] h = refl
  lookup-has_key k ((i, w) ∷ m) h = ground (arith, lookup-has_key k m)

  pub has_key-insert :
      (j k : ℕ) (v : V) (m : List (ℕ × V))
      → has_key j (insert k v m) ≡ (if k == j then true else has_key j m)
  unfolding has_key insert
  has_key-insert j k v [] = refl
  has_key-insert j k v ((i, w) ∷ m) = ground (arith, has_key-insert j k v m)

  pub has_key-delete-false :
      (j k : ℕ) (m : List (ℕ × V)) → has_key j m ≡ false → has_key j (delete k m) ≡ false
  unfolding has_key delete
  has_key-delete-false j k [] h = refl
  has_key-delete-false j k ((i, w) ∷ m) h = ground (arith, has_key-delete-false j k m)

  pub has_key-update_each-false :
      (f : ℕ → V → Option V) (j : ℕ) (m : List (ℕ × V))
      → has_key j m ≡ false
      → has_key j (update_each f m) ≡ false
  unfolding has_key update_each
  has_key-update_each-false f j [] h = refl
  has_key-update_each-false f j ((i, w) ∷ m) h = ground (arith, has_key-update_each-false f j m)

  pub Distinct-insert : (k : ℕ) (v : V) (m : List (ℕ × V)) → Distinct m → Distinct (insert k v m)
  unfolding insert has_key
  Distinct-insert k v [] h = (refl, tt)
  Distinct-insert k v ((i, w) ∷ m) h = elim (Bool-cases (i == k)) [
    | inl e ↦ rw e (let p : i ≡ k = ground arith in rw p at h)
    | inr e ↦ rw e (ground (arith, has_key-insert i k v m), Distinct-insert k v m h.1)
  ]

  pub Distinct-delete : (k : ℕ) (m : List (ℕ × V)) → Distinct m → Distinct (delete k m)
  unfolding delete
  Distinct-delete k [] h = tt
  Distinct-delete k ((i, w) ∷ m) h = elim (Bool-cases (i == k)) [
    | inl e ↦ rw e (Distinct-delete k m h.1)
    | inr e ↦ rw e (has_key-delete-false i k m h.0, Distinct-delete k m h.1)
  ]

  pub Distinct-update_each :
      (f : ℕ → V → Option V) (m : List (ℕ × V)) → Distinct m → Distinct (update_each f m)
  unfolding update_each
  Distinct-update_each f [] h = tt
  Distinct-update_each f ((i, w) ∷ m) h = elim (Option-cases (f i w)) [
    | inl e ↦ rw (e, update_each) (Distinct-update_each f m h.1)
    | inr (v, e) ↦
        rw (e, update_each) (has_key-update_each-false f i m h.0, Distinct-update_each f m h.1)
  ]

  pub lookup-update_each :
      (f : ℕ → V → Option V) (j : ℕ) (m : List (ℕ × V))
      → Distinct m
      → lookup j (update_each f m) ≡ updated f j (lookup j m)
  unfolding lookup update_each
  lookup-update_each f j [] h = refl
  lookup-update_each f j ((i, w) ∷ m) h = ground (
    arith,
    lookup-update_each f j m h.1,
    lookup-has_key j (update_each f m),
    has_key-update_each-false f j m,
    lookup-has_key j m,
  )

module _ {ℓ κ} {V : Type ℓ} (P : ℕ → V → Type κ) where
  abbrev pub AllEntries : List (ℕ × V) → Type κ
  AllEntries [] = Unit
  AllEntries ((k, v) ∷ m) = P k v × AllEntries m

module _ {ℓ κ} {V : Type ℓ} (P : ℕ → V → Type κ) where
  pub AllEntries-insert :
      (k : ℕ) (v : V) (m : List (ℕ × V)) → P k v → AllEntries P m → AllEntries P (insert k v m)
  unfolding insert
  AllEntries-insert k v [] p h = (p, tt)
  AllEntries-insert k v ((i, w) ∷ m) p h = elim (Bool-cases (i == k)) [
    | inl e ↦ rw e (p, h.1)
    | inr e ↦ rw e (h.0, AllEntries-insert k v m p h.1)
  ]

  pub AllEntries-delete : (k : ℕ) (m : List (ℕ × V)) → AllEntries P m → AllEntries P (delete k m)
  unfolding delete
  AllEntries-delete k [] h = tt
  AllEntries-delete k ((i, w) ∷ m) h = elim (Bool-cases (i == k)) [
    | inl e ↦ rw e (AllEntries-delete k m h.1)
    | inr e ↦ rw e (h.0, AllEntries-delete k m h.1)
  ]

  pub AllEntries-lookup :
      (k : ℕ) {v : V} (m : List (ℕ × V)) → AllEntries P m → lookup k m ≡ some v → P k v
  unfolding lookup
  AllEntries-lookup k [] h e = cc
  AllEntries-lookup k {v} ((i, w) ∷ m) h e = elim (Bool-cases (i == k)) [
    | inl b ↦
        let p : i ≡ k = ground arith in
        let q : w ≡ v = ground arith in subst (λ x. P k x) q (subst (λ x. P x w) p h.0)
    | inr b ↦ AllEntries-lookup k m h.1 (ground arith)
  ]

module _ {ℓ κ μ} {V : Type ℓ} (P : ℕ → V → Type κ) (Q : ℕ → V → Type μ) where
  pub AllEntries-update_each :
      (f : ℕ → V → Option V)
      → ((k : ℕ) (v w : V) → P k v → f k v ≡ some w → Q k w)
      → (m : List (ℕ × V)) → AllEntries P m
      → AllEntries Q (update_each f m)
  unfolding update_each
  AllEntries-update_each f step [] h = tt
  AllEntries-update_each f step ((i, w) ∷ m) h = elim (Option-cases (f i w)) [
    | inl e ↦ rw (e, update_each) (AllEntries-update_each f step m h.1)
    | inr (v, e) ↦ rw (e, update_each) (step i w v h.0 e, AllEntries-update_each f step m h.1)
  ]
