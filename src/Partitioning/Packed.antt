-- ===== src/Partitioning/Packed.antt =====
-- What the chunks hold: all of the data in its order, in chunks that respect the limit.
use elrond_go.Prelude.{
  ℕ, ◌+◌, ◌≤◌, ◌<◌, ◌≡◌, refl, ap, inl, inr, ◌⊎◌, true, false, ◌&&◌, Option, some, List, [], ◌∷◌,
  ◌++◌, arith, ltb, leb, Bool-cases, length,
}
use elrond_go.Prelude.Bytes.{Bytes}
use elrond_go.Prelude.Maps.{All}
use elrond_go.Partitioning.Packer.{
  has_some, prepend, or_nil, last_chunk, pack_loop, pack_data_in_chunks,
}

abbrev pub total : List Bytes → ℕ
total [] = 0
total (x ∷ xs) = length x + total xs

abbrev pub join : List (List Bytes) → List Bytes
join [] = []
join (c ∷ cs) = c ++ join cs

abbrev pub decode_all : (Bytes → List Bytes) → List Bytes → List (List Bytes)
decode_all decode [] = []
decode_all decode (b ∷ bs) = decode b ∷ decode_all decode bs

-- one element, or fewer bytes than the limit
abbrev pub Fits : ℕ → List Bytes → Type 0
Fits limit chunk = (length chunk ≤ 1) ⊎ (total chunk < limit)

append_nil : (xs : List Bytes) → xs ++ [] ≡ xs
append_nil [] = refl
append_nil (x ∷ xs) = ap (λ t. x ∷ t) (append_nil xs)

append_one : (xs : List Bytes) (e : Bytes) (es : List Bytes) → (xs ++ e ∷ []) ++ es ≡ xs ++ e ∷ es
append_one [] e es = refl
append_one (x ∷ xs) e es = ap (λ t. x ∷ t) (append_one xs e es)

total-append : (xs : List Bytes) (e : Bytes) → total (xs ++ e ∷ []) ≡ total xs + length e
total-append [] e = omega arith
total-append (x ∷ xs) e = omega (arith, total-append xs e)

module _ (marshal : List Bytes → Option Bytes) (encode : List Bytes → Bytes)
    (decode : Bytes → List Bytes)
    (total_marshal : (xs : List Bytes) → marshal xs ≡ some (encode xs))
    (round_trip : (xs : List Bytes) → decode (encode xs) ≡ xs) (limit : ℕ) where
  record Packed (all : List Bytes) (r : Option (List Bytes)) : Type 0 where
    chunks : List Bytes
    says : r ≡ some chunks
    whole : join (decode_all decode chunks) ≡ all
    small : All (Fits limit) (decode_all decode chunks)

  flush :
      (current : List Bytes) (e : Bytes) (es : List Bytes) (r : Option (List Bytes))
      → Fits limit current
      → Packed (e ∷ es) r
      → Packed (current ++ e ∷ es) (prepend (or_nil (marshal current)) r)
  flush current e es r f p = record {
    chunks = encode current ∷ p.chunks;
    says = rw (total_marshal current, p.says) refl;
    whole = rw (round_trip current) (ap (λ t. current ++ t) p.whole);
    small = rw (round_trip current) (f, p.small);
  }

  still-Fits :
      (current : List Bytes) (e : Bytes)
      → (leb limit (total current + length e) && has_some current) ≡ false
      → Fits limit (current ++ e ∷ [])
  still-Fits [] e t = inl (omega arith)
  still-Fits (x ∷ xs) e t =
      let n = total-append (x ∷ xs) e in
      let u : leb limit (total (x ∷ xs) + length e) ≡ false =
        elim (Bool-cases (leb limit (total (x ∷ xs) + length e))) [
          | inl v ↦ let w : true ≡ false = rw v at t in cc
          | inr v ↦ v
        ] in
      let under : total (x ∷ xs) + length e < limit = ground (arith, u) in inr (rw n under)

  pack_loop-Packed :
      (es current : List Bytes)
      → Fits limit current
      → Packed (current ++ es) (pack_loop marshal limit es current (total current))
  unfolding pack_loop last_chunk
  pack_loop-Packed [] [] f = record { chunks = []; says = refl; whole = refl; small = tt }
  pack_loop-Packed [] (x ∷ xs) f = record {
    chunks = encode (x ∷ xs) ∷ [];
    says = rw (total_marshal (x ∷ xs)) refl;
    whole = rw (round_trip (x ∷ xs)) refl;
    small = rw (round_trip (x ∷ xs)) (f, tt);
  }
  pack_loop-Packed (e ∷ es) current f =
      elim (Bool-cases (leb limit (total current + length e) && has_some current)) [
        | inl t ↦
            let n : length e + 0 ≡ length e = omega arith in
            rw t
              (flush current e es _ f (rw n at (pack_loop-Packed es (e ∷ []) (inl (omega arith)))))
        | inr t ↦
            let r = pack_loop-Packed es (current ++ e ∷ []) (still-Fits current e t) in
            rw (t, ← append_one current e es) (rw (total-append current e) at r)
      ]

  -- PackDataInChunks of the simple packer, where the marshalizer does not fail and what it encodes is
  -- decoded again, and the limit is at least 1, has no error; the decoded chunks hold all of the data
  -- in its order, and each is one element or has fewer bytes than the limit.
  pub pack_data_in_chunks_lem :
      (elements : List Bytes)
      → 1 ≤ limit
      → (chunks : List Bytes) × (pack_data_in_chunks marshal limit (some elements) ≡ some chunks)
        × (join (decode_all decode chunks) ≡ elements)
        × All (Fits limit) (decode_all decode chunks)
  unfolding pack_data_in_chunks
  pack_data_in_chunks_lem elements one =
      let p = pack_loop-Packed elements [] (inl (omega arith)) in
      let t : ltb limit 1 ≡ false = ground (arith, one) in
      (p.chunks, rw (t, p.says) refl, p.whole, p.small)
