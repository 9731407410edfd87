-- ===== src/Blocks/Finality.antt =====
-- shardblock.go: a meta header is final when headers were built upon it.
use elrond_go.Prelude.{
  ℕ, zero, suc, ◌≡◌, refl, ◌+◌, ◌%◌, inl, inr, Bool, true, false, Option, none, some, List, [], ◌∷◌,
  arith, leb, ◌==◌, if◌then◌else◌, Bool-cases,
}
use elrond_go.Prelude.Int.{two64}
use elrond_go.Blocks.Types.{
  Error, err_nil_block_header, err_header_not_final, Result, ok, err, Header, Codec,
}
use elrond_go.Blocks.Validity.{is_hdr_construction_valid}

unfoldable pub is_nil : Option Error → Bool
is_nil none = true
is_nil (some e) = false

module _ (c : Codec) where
  -- the header has the next nonce and was built on the last verified one
  unfoldable pub attests : Header → Header → Bool
  attests last hdr =
      if hdr.nonce == (last.nonce + 1) % two64
      then is_nil (is_hdr_construction_valid c hdr (some last))
      else false

  -- the loop of checkMetaHdrFinality and of isMetaHeaderFinal: the number of blocks verified
  unfoldable pub next_blocks_verified : ℕ → List Header → Header → ℕ → ℕ
  next_blocks_verified finality [] last verified = verified
  next_blocks_verified finality (hdr ∷ hdrs) last verified =
      let skipped = next_blocks_verified finality hdrs last verified in
      let taken = next_blocks_verified finality hdrs hdr (verified + 1) in
      if leb finality verified then verified else if attests last hdr then taken else skipped

  -- over the headers from the start position on
  unfoldable pub is_meta_header_final : ℕ → Option Header → List Header → Bool
  is_meta_header_final finality none hdrs = false
  is_meta_header_final finality (some curr) hdrs =
      leb finality (next_blocks_verified finality hdrs curr 0)

  -- over the headers of the block that attest only
  unfoldable pub check_meta_hdr_finality : ℕ → Option Header → List Header → Option Error
  check_meta_hdr_finality finality none hdrs = some err_nil_block_header
  check_meta_hdr_finality finality (some curr) hdrs =
      if leb finality (next_blocks_verified finality hdrs curr 0)
      then none
      else some err_header_not_final

  -- each used meta header is built on the one before, and the last one is final
  unfoldable pub check_used : ℕ → List Header → List Header → Header → Option Error
  check_used finality attesting [] last = check_meta_hdr_finality finality (some last) attesting
  check_used finality attesting (hdr ∷ hdrs) last =
      let rest = check_used finality attesting hdrs hdr in
      elim (is_hdr_construction_valid c hdr (some last)) [ none ↦ rest | some e ↦ some e ]

  unfoldable pub check_meta_headers_validity_and_finality :
      ℕ → List Header → List Header → Result Header → Option Error
  check_meta_headers_validity_and_finality finality used attesting (err e) = some e
  check_meta_headers_validity_and_finality finality [] attesting (ok noted) = none
  check_meta_headers_validity_and_finality finality (hdr ∷ hdrs) attesting (ok noted) =
      check_used finality attesting (hdr ∷ hdrs) noted

  -- headers of a list, in its order, of which each attests the one before
  pub data Attested : ℕ → Header → List Header → Type 0 where
    enough : {h : Header} {xs : List Header} → Attested zero h xs
    pass : {k : ℕ} {h x : Header} {xs : List Header} → Attested k h xs → Attested k h (x ∷ xs)
    use_it :
        {k : ℕ} {h x : Header} {xs : List Header}
        → attests h x ≡ true
        → Attested k x xs
        → Attested (suc k) h (x ∷ xs)

  next_blocks_verified-Attested :
      (finality k : ℕ) (xs : List Header) (h : Header) (v : ℕ)
      → finality ≡ v + k
      → leb finality (next_blocks_verified finality xs h v) ≡ true
      → Attested k h xs
  unfolding next_blocks_verified
  next_blocks_verified-Attested f zero xs h v n e = enough
  next_blocks_verified-Attested f (suc k) [] h v n e = let x : true ≡ false = ground arith in cc
  next_blocks_verified-Attested f (suc k) (x ∷ xs) h v n e =
      let not_yet : leb f v ≡ false = ground arith in
      elim (Bool-cases (attests h x)) [
        | inl t ↦
            use_it t
              (next_blocks_verified-Attested f k xs x (v + 1) (omega arith) (rw (not_yet, t) at e))
        | inr t ↦ pass (next_blocks_verified-Attested f (suc k) xs h v n (rw (not_yet, t) at e))
      ]

  next_blocks_verified_done : (xs : List Header) (h : Header) → next_blocks_verified 1 xs h 1 ≡ 1
  unfolding next_blocks_verified
  next_blocks_verified_done [] h = refl
  next_blocks_verified_done (x ∷ xs) h = refl

  Attested-next_blocks_verified :
      (xs : List Header) (h : Header) → Attested 1 h xs → next_blocks_verified 1 xs h 0 ≡ 1
  unfolding next_blocks_verified
  Attested-next_blocks_verified [] h a = elim a [ ]
  Attested-next_blocks_verified (x ∷ xs) h (pass a) = elim (Bool-cases (attests h x)) [
    | inl t ↦ rw t (next_blocks_verified_done xs x)
    | inr t ↦ rw t (Attested-next_blocks_verified xs h a)
  ]
  Attested-next_blocks_verified (x ∷ xs) h (use_it t a) = rw t (next_blocks_verified_done xs x)

  -- A meta header that isMetaHeaderFinal finds final has as many headers behind it, in the order of
  -- the list, as the finality asks for, each attesting the one before; and for the finality 1, which
  -- the shard uses, a header with one attesting header behind it is found final.
  pub is_meta_header_final-Attested :
      (finality : ℕ) (h : Header) (xs : List Header)
      → (is_meta_header_final finality (some h) xs ≡ true → Attested finality h xs)
        × (Attested 1 h xs → is_meta_header_final 1 (some h) xs ≡ true)
  unfolding is_meta_header_final
  is_meta_header_final-Attested finality h xs = (
    next_blocks_verified-Attested finality finality xs h 0 (omega arith),
    λ a. let e = Attested-next_blocks_verified xs h a in rw e refl,
  )
