-- ===== src/Prelude/Keyed.antt =====
-- Go maps whose keys are strings, as association lists with distinct keys.
use elrond_go.Prelude.{
  ◌≡◌, refl, ◌∙◌, inl, inr, Bool, true, false, Option, none, some, List, [], ◌∷◌, arith,
  if◌then◌else◌, Bool-cases,
}
use elrond_go.Prelude.Bytes.{Bytes, bytes_eq, bytes_eq_iff}

pub bytes_eq_self : (a : Bytes) → bytes_eq a a ≡ true
bytes_eq_self a = (bytes_eq_iff a a).1 refl

-- Two keys of which one is equal to a third and the other is not.
pub bytes_eq_ne :
    (a b c : Bytes) → bytes_eq a b ≡ true → bytes_eq a c ≡ false → bytes_eq b c ≡ false
bytes_eq_ne a b c h k = let e = (bytes_eq_iff a b).0 h in rw e at k

unfoldable pub is_in : Bytes → List Bytes → Bool
is_in b [] = false
is_in b (x ∷ xs) = let rest = is_in b xs in if bytes_eq x b then true else rest

module _ {ℓ} {V : Type ℓ} where
  unfoldable pub lookup_at : Bytes → List (Bytes × V) → Option V
  lookup_at k [] = none
  lookup_at k ((j, v) ∷ m) = let rest = lookup_at k m in if bytes_eq j k then some v else rest

  unfoldable pub insert_at : Bytes → V → List (Bytes × V) → List (Bytes × V)
  insert_at k v [] = (k, v) ∷ []
  insert_at k v ((j, w) ∷ m) =
      let rest = insert_at k v m in if bytes_eq j k then (k, v) ∷ m else (j, w) ∷ rest

  unfoldable pub delete_at : Bytes → List (Bytes × V) → List (Bytes × V)
  delete_at k [] = []
  delete_at k ((j, w) ∷ m) =
      let rest = delete_at k m in if bytes_eq j k then rest else (j, w) ∷ rest

  abbrev pub DistinctKeys : List (Bytes × V) → Type ℓ
  DistinctKeys [] = Unit
  DistinctKeys ((k, v) ∷ m) = (lookup_at k m ≡ none) × DistinctKeys m

module _ {ℓ} {V : Type ℓ} where
  pub lookup_at-insert_at :
      (j k : Bytes) (v : V) (m : List (Bytes × V))
      → lookup_at j (insert_at k v m) ≡ (if bytes_eq k j then some v else lookup_at j m)
  unfolding lookup_at insert_at
  lookup_at-insert_at j k v [] = refl
  lookup_at-insert_at j k v ((i, w) ∷ m) =
      ground
        (arith, bytes_eq_iff i k, bytes_eq_iff i j, bytes_eq_iff k j, lookup_at-insert_at j k v m)

  pub lookup_at-delete_at :
      (j k : Bytes) (m : List (Bytes × V))
      → lookup_at j (delete_at k m) ≡ (if bytes_eq k j then none else lookup_at j m)
  unfolding lookup_at delete_at
  lookup_at-delete_at j k [] = ground arith
  lookup_at-delete_at j k ((i, w) ∷ m) =
      ground
        (arith, bytes_eq_iff i k, bytes_eq_iff i j, bytes_eq_iff k j, lookup_at-delete_at j k m)

  pub DistinctKeys-insert_at :
      (k : Bytes) (v : V) (m : List (Bytes × V)) → DistinctKeys m → DistinctKeys (insert_at k v m)
  unfolding insert_at
  DistinctKeys-insert_at k v [] h = (unfold lookup_at in refl, tt)
  DistinctKeys-insert_at k v ((i, w) ∷ m) h = elim (Bool-cases (bytes_eq i k)) [
    | inl t ↦ let e = (bytes_eq_iff i k).0 t in rw t (rw e at h)
    | inr t ↦
        let u : bytes_eq k i ≡ false = ground (arith, bytes_eq_iff i k, bytes_eq_iff k i) in
        rw t (lookup_at-insert_at i k v m ∙ rw u h.0, DistinctKeys-insert_at k v m h.1)
  ]

  pub DistinctKeys-delete_at :
      (k : Bytes) (m : List (Bytes × V)) → DistinctKeys m → DistinctKeys (delete_at k m)
  unfolding delete_at
  DistinctKeys-delete_at k [] h = tt
  DistinctKeys-delete_at k ((i, w) ∷ m) h = elim (Bool-cases (bytes_eq i k)) [
    | inl t ↦ rw t (DistinctKeys-delete_at k m h.1)
    | inr t ↦
        let u : bytes_eq k i ≡ false = ground (arith, bytes_eq_iff i k, bytes_eq_iff k i) in
        rw t (lookup_at-delete_at i k m ∙ rw u h.0, DistinctKeys-delete_at k m h.1)
  ]
