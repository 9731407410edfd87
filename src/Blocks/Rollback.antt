-- ===== src/Blocks/Rollback.antt =====
-- removeLastNotarized against saveLastNotarizedHeader.
use elrond_go.Prelude.{
  ℕ, suc, ◌≡◌, refl, sym, ap, ◌∙◌, ◌-◌, ◌≤◌, inl, inr, true, false, none, some, List, [], ◌∷◌, ◌++◌,
  arith, ltb, ◌==◌, ==_iff, Bool-cases, Option, Option-cases, length, length-append, take,
}
use elrond_go.Prelude.Maps.{lookup, lookup-update_each, Distinct, Distinct-insert}
use elrond_go.Blocks.Types.{ok, Header, Codec}
use elrond_go.Blocks.Validity.{check_header_type_correct}
use elrond_go.Blocks.Notarized.{
  HeaderLists, headers_of, slice_of, last_of, last_notarized_hdr_for_shard, add_last_notarized_hdr,
  without_last, for_each_shard, remove_last_notarized, sort_by_nonce, check_from,
  save_last_notarized_header,
}
use elrond_go.Blocks.Chained.{unless_error-ok, headers_of-add_last, save_checked-ok}

pub headers_of-for_each_shard :
    (f : List Header → List Header)
    → f [] ≡ []
    → (j : ℕ) (m : HeaderLists) → Distinct m
    → headers_of j (for_each_shard f m) ≡ f (headers_of j m)
unfolding headers_of for_each_shard slice_of
headers_of-for_each_shard f z j m d =
    let e = lookup-update_each (λ _ hs. some (f hs)) j m d in
    elim (Option-cases (lookup j m)) [ inl t ↦ rw (e, t) (sym z) | inr (hs, t) ↦ rw (e, t) refl ]

without_last-short : (hs : List Header) → length hs ≤ 1 → without_last hs ≡ hs
unfolding without_last
without_last-short hs b = ground arith

take-append_one : (xs : List Header) (h : Header) → take (length xs) (xs ++ h ∷ []) ≡ xs
take-append_one [] h = refl
take-append_one (x ∷ xs) h = ap (λ t. x ∷ t) (take-append_one xs h)

without_last-append :
    (x : Header) (xs : List Header) (h : Header) → without_last ((x ∷ xs) ++ h ∷ []) ≡ x ∷ xs
unfolding without_last
without_last-append x xs h =
    let n : length (xs ++ h ∷ []) ≡ suc (length xs) = omega (arith, length-append xs (h ∷ [])) in
    let more : ltb 1 (suc (suc (length xs))) ≡ true = ground arith in
    let less : suc (suc (length xs)) - 1 ≡ suc (length xs) = omega arith in
    rw (n, more, less) (ap (λ t. x ∷ t) (take-append_one xs h))

without_last-append_some :
    (xs : List Header) (h y : Header) → last_of xs ≡ some y → without_last (xs ++ h ∷ []) ≡ xs
unfolding last_of
without_last-append_some [] h y e = cc
without_last-append_some (x ∷ xs) h y e = without_last-append x xs h

check_from-some :
    (c : Codec) (n i : ℕ) (hs : List Header) (o : Option Header) (l : Header)
    → check_from c n i hs o ≡ ok l
    → (y : Header) × (o ≡ some y)
unfolding check_from
check_from-some c n i hs none l e = cc
check_from-some c n i hs (some y) l e = (y, refl)

-- Where saveLastNotarizedHeader says no error for a shard and the other shards have one notarized
-- header at most, removeLastNotarized gives each shard the headers that it had before.
pub remove_last_notarized-save_last_notarized_header :
    (c : Codec) (n i : ℕ) (hs : List Header) (m m' : HeaderLists)
    → Distinct m
    → ((j : ℕ) → (i == j) ≡ false → length (headers_of j m) ≤ 1)
    → save_last_notarized_header c n i hs m ≡ (m', none)
    → (j : ℕ) → headers_of j (remove_last_notarized m') ≡ headers_of j m
unfolding remove_last_notarized save_last_notarized_header
remove_last_notarized-save_last_notarized_header c n i hs m m' d short e j =
    let s = save_checked-ok c n i _ m m' e in
    let last = last_notarized_hdr_for_shard i m in
    let p = unless_error-ok (check_header_type_correct n i last) _ s.1 in
    let y = check_from-some c n i (sort_by_nonce hs) last s.0 p.1 in
    let d' : Distinct (add_last_notarized_hdr i s.0 m) =
      unfold add_last_notarized_hdr in Distinct-insert i (headers_of i m ++ s.0 ∷ []) m d in
    let a = headers_of-add_last i j s.0 m in
    sym (ap (λ t. headers_of j (for_each_shard without_last t)) s.2)
    ∙ headers_of-for_each_shard without_last (unfold without_last in refl) j
        (add_last_notarized_hdr i s.0 m) d'
    ∙ elim (Bool-cases (i == j)) [
      | inl t ↦
          let w =
            without_last-append_some (headers_of i m) s.0 y.0
              (unfold last_notarized_hdr_for_shard in y.1) in
          ap without_last (rw t at a) ∙ w ∙ ap (λ k. headers_of k m) ((==_iff i j).0 t)
      | inr t ↦ ap without_last (rw t at a) ∙ without_last-short (headers_of j m) (short j t)
    ]
