-- ===== src/Sharding/Signers.antt =====
-- GetSelectedPublicKeys on every bitmap that is long enough.
use elrond_go.Prelude.{
  ℕ, zero, suc, ◌≡◌, refl, sym, ap, ◌∙◌, ◌+◌, ◌*◌, ◌/◌, ◌%◌, ◌^◌, ◌<◌, ◌≤◌, inl, inr, Bool, true,
  false, Option, none, some, List, [], ◌∷◌, ◌++◌, arith, ltb, ◌==◌, if◌then◌else◌, Bool-cases,
  length, length-append, get_elem?, set, replicate, length-replicate,
}
use elrond_go.Prelude.Bytes.{Bytes}
use elrond_go.Sharding.Nodes.{
  Validator, err_eligible_too_few_selections, Run, finished, failed, panics, and_then,
}
use elrond_go.Sharding.Selection.{is_selected, put_key, select_keys, enough_keys, selected_of}

-- the bit of a validator; a bit behind the end is not set
unfoldable pub bit_of : Option ℕ → ℕ → Bool
bit_of none i = false
bit_of (some b) i = b / 2 ^ (i % 8) % 2 == 1

-- the keys of the validators whose bit is set, in the order of the list
unfoldable pub signers : Bytes → ℕ → List Validator → List Bytes
signers selection i [] = []
signers selection i (v ∷ vs) =
    let rest = signers selection (i + 1) vs in
    if bit_of (get_elem? selection (i / 8)) i then v.pub_key ∷ rest else rest

-- what GetSelectedPublicKeys makes of the signers
unfoldable pub by_number : ℕ → List Bytes → Run (List Bytes)
by_number size keys =
    if ltb size (length keys)
    then panics
    else if ltb (length keys) size
    then failed err_eligible_too_few_selections
    else finished keys

in_range : (bs : Bytes) (j : ℕ) → j < length bs → (b : ℕ) × (get_elem? bs j ≡ some b)
in_range [] j h = absurd (omega (arith, h))
in_range (b ∷ bs) zero h = (b, refl)
in_range (b ∷ bs) (suc j) h = in_range bs j (omega (arith, h))

is_selected-bit_of :
    (selection : Bytes) (i : ℕ)
    → i < length selection * 8
    → is_selected selection i ≡ finished (bit_of (get_elem? selection (i / 8)) i)
unfolding is_selected bit_of
is_selected-bit_of selection i b =
    let g = in_range selection (i / 8) (omega (arith, b)) in rw (g.1, is_selected) refl

-- the array: the keys so far, and as many empty strings as are left
abbrev filled : List Bytes → ℕ → List Bytes
filled keys left = keys ++ replicate left []

set-filled :
    (keys : List Bytes) (left : ℕ) (k : Bytes)
    → set (filled keys (suc left)) (length keys) k ≡ filled (keys ++ k ∷ []) left
set-filled [] left k = refl
set-filled (x ∷ xs) left k = ap (λ t. x ∷ t) (set-filled xs left k)

length-filled : (keys : List Bytes) (left : ℕ) → length (filled keys left) ≡ length keys + left
length-filled keys left =
    let a = length-append keys (replicate left []) in
    let empty : Bytes = [] in let b = length-replicate left empty in omega (arith, a, b)

put_key-filled :
    (keys : List Bytes) (left : ℕ) (k : Bytes)
    → put_key (filled keys (suc left)) (length keys) k ≡ finished (filled (keys ++ k ∷ []) left)
unfolding put_key
put_key-filled keys left k =
    let n = length-filled keys (suc left) in
    let t : ltb (length keys) (length (filled keys (suc left))) ≡ true = ground (arith, n) in
    rw (t, set-filled keys left k) refl

put_key-full : (keys : List Bytes) (k : Bytes) → put_key (filled keys 0) (length keys) k ≡ panics
unfolding put_key
put_key-full keys k =
    let n = length-filled keys 0 in
    let t : ltb (length keys) (length (filled keys 0)) ≡ false = ground (arith, n) in rw t refl

append_one :
    (keys : List Bytes) (k : Bytes) (rest : List Bytes)
    → (keys ++ k ∷ []) ++ rest ≡ keys ++ k ∷ rest
append_one [] k rest = refl
append_one (x ∷ keys) k rest = ap (λ t. x ∷ t) (append_one keys k rest)

by_number-more :
    (size : ℕ) (keys : List Bytes) (k : Bytes) (rest : List Bytes)
    → length keys ≡ size
    → by_number size (keys ++ k ∷ rest) ≡ panics
unfolding by_number
by_number-more size keys k rest e =
    let n = length-append keys (k ∷ rest) in
    let t : ltb size (length (keys ++ k ∷ rest)) ≡ true = ground (arith, n, e) in rw t refl

enough_keys-filled :
    (size left : ℕ) (keys : List Bytes)
    → length keys + left ≡ size
    → enough_keys size (filled keys left, length keys) ≡ by_number size (keys ++ [])
unfolding enough_keys by_number
enough_keys-filled size zero keys e =
    let empty : List Bytes = [] in
    let n = length-append keys empty in
    let t : ltb (length keys) size ≡ false = ground (arith, e) in
    let u : ltb size (length (keys ++ [])) ≡ false = ground (arith, n, e) in
    let w : ltb (length (keys ++ [])) size ≡ false = ground (arith, n, e) in rw (t, u, w) refl
enough_keys-filled size (suc left) keys e =
    let empty : List Bytes = [] in
    let n = length-append keys empty in
    let t : ltb (length keys) size ≡ true = ground (arith, e) in
    let u : ltb size (length (keys ++ [])) ≡ false = ground (arith, n, e) in
    let w : ltb (length (keys ++ [])) size ≡ true = ground (arith, n, e) in rw (t, u, w) refl

module _ (selection : Bytes) (size : ℕ) where
  -- the rest of the function behind the loop
  abbrev from_loop : Run (List Bytes × ℕ) → Run (List Bytes)
  from_loop r = and_then r (λ p. enough_keys size p)

  select_keys-signers :
      (vs : List Validator) (i : ℕ) (keys : List Bytes) (left cnt : ℕ)
      → cnt ≡ length keys
      → length keys + left ≡ size
      → i + length vs ≤ length selection * 8
      → from_loop (select_keys selection size vs i (filled keys left) cnt)
        ≡ by_number size (keys ++ signers selection i vs)
  unfolding select_keys signers and_then
  select_keys-signers [] i keys left cnt c e b = rw c (enough_keys-filled size left keys e)
  select_keys-signers (v ∷ vs) i keys zero cnt c e b =
      let s = is_selected-bit_of selection i (omega (arith, b)) in
      elim (Bool-cases (bit_of (get_elem? selection (i / 8)) i)) [
        | inr t ↦ rw (s, t) (select_keys-signers vs (i + 1) keys zero cnt c e (omega (arith, b)))
        | inl t ↦
            let n : length keys ≡ size = omega (arith, e) in
            rw (s, t, c, put_key-full keys v.pub_key)
              (sym (by_number-more size keys v.pub_key (signers selection (i + 1) vs) n))
      ]
  select_keys-signers (v ∷ vs) i keys (suc left) cnt c e b =
      let s = is_selected-bit_of selection i (omega (arith, b)) in
      elim (Bool-cases (bit_of (get_elem? selection (i / 8)) i)) [
        | inr t ↦
            rw (s, t) (select_keys-signers vs (i + 1) keys (suc left) cnt c e (omega (arith, b)))
        | inl t ↦
            let u : ltb size (length keys + 1) ≡ false = ground (arith, e) in
            let n : length (keys ++ v.pub_key ∷ []) ≡ length keys + 1 =
              omega (arith, length-append keys (v.pub_key ∷ [])) in
            let r =
              select_keys-signers vs (i + 1) (keys ++ v.pub_key ∷ []) left (length keys + 1) (sym n)
                (omega (arith, n, e)) (omega (arith, b)) in
            rw (s, t, c, put_key-filled keys left v.pub_key, u)
              (r ∙ ap (by_number size) (append_one keys v.pub_key (signers selection (i + 1) vs)))
      ]

  -- For a bitmap with a bit for each eligible validator, fewer than 2 ^ 16 of them and 2 ^ 13 bytes,
  -- GetSelectedPublicKeys returns the keys of the validators whose bit is set where their number is
  -- the size of the group, and an error where it is smaller; where it is larger, the assignment into
  -- the array of that size panics before the count is tested.
  pub selected_of-signers :
      (eligible : List Validator)
      → length eligible ≤ length selection * 8
      → length selection < 2 ^ 13
      → selected_of selection size eligible ≡ by_number size (signers selection 0 eligible)
  unfolding selected_of
  selected_of-signers eligible b m =
      let t : ltb (length selection * 8 % 2 ^ 16) (length eligible % 2 ^ 16) ≡ false =
        ground (arith, b, m) in
      rw t (select_keys-signers eligible 0 [] size 0 refl (omega arith) (omega (arith, b)))
