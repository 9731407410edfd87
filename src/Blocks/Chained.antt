-- ===== src/Blocks/Chained.antt =====
-- saveLastNotarizedHeader: what a notarized list of headers comes to.
use elrond_go.Prelude.{
  ℕ, suc, ◌≡◌, refl, sym, ap, ◌∙◌, ◌+◌, ◌%◌, ◌<◌, inl, inr, true, false, Option, none, some, List,
  [], ◌∷◌, ◌++◌, arith, ◌==◌, if◌then◌else◌, Bool-cases, length,
}
use elrond_go.Prelude.Bytes.{Bytes}
use elrond_go.Prelude.Int.{two64}
use elrond_go.Prelude.Maps.{lookup, lookup-insert}
use elrond_go.Blocks.Types.{
  Error, err_wrong_nonce_in_block, Result, ok, ok-eq, err, unless_error, Header, Codec,
}
use elrond_go.Blocks.Validity.{
  is_hdr_construction_valid, check_header_type_correct, check_genesis, Follows,
  check_follows-Follows,
}
use elrond_go.Blocks.Notarized.{
  HeaderLists, headers_of, slice_of, last_of, last_notarized_hdr_for_shard, add_last_notarized_hdr,
  insert_by_nonce, sort_by_nonce, check_each, check_from, save_checked, save_last_notarized_header,
}

-- From a header, over a list, to the last one: each is built on the one before, and the nonces go up
-- by one.
pub data Chained (c : Codec) : Header → List Header → Header → Type 0 where
  nothing : {h : Header} → Chained c h [] h
  link :
      {h x l : Header} {xs : List Header}
      → Follows c h x
      → x.nonce ≡ suc h.nonce
      → Chained c x xs l
      → Chained c h (x ∷ xs) l

pub Chained-nonce :
    (c : Codec) (h l : Header) (xs : List Header) → Chained c h xs l → l.nonce ≡ h.nonce + length xs
Chained-nonce c h l xs nothing = omega arith
Chained-nonce c h l xs (link {x = x} {xs = ys} f n k) = omega (arith, n, Chained-nonce c x l ys k)

pub unless_error-ok {ℓ} :
    {A : Type ℓ} (o : Option Error) (r : Result A) {a : A}
    → unless_error o r ≡ ok a
    → (o ≡ none) × (r ≡ ok a)
unfolding unless_error
unless_error-ok none r h = (refl, h)
unless_error-ok (some e) r h = cc

check_genesis-nonzero :
    (x : Header) → (x.nonce == 0) ≡ false → check_genesis x ≡ some err_wrong_nonce_in_block
unfolding check_genesis
check_genesis-nonzero x t = rw t refl

check_genesis-root :
    (x : Header) (r : Bytes) → x.root_hash ≡ some r → (e : Error) × (check_genesis x ≡ some e)
unfolding check_genesis
check_genesis-root x r h = elim (Bool-cases (x.nonce == 0)) [
  | inl t ↦ rw (t, h) (_, refl)
  | inr t ↦ rw t (_, refl)
]

next_nonce : (n p : ℕ) → p < two64 → n ≡ (p + 1) % two64 → (n == 0) ≡ false → n ≡ suc p
next_nonce n p b e z = ground arith

next_bound : (n p : ℕ) → n ≡ (p + 1) % two64 → n < two64
next_bound n p e = omega arith

module _ (c : Codec) where
  valid-Follows :
      (x h : Header) (e : Error)
      → check_genesis h ≡ some e
      → is_hdr_construction_valid c x (some h) ≡ none
      → Follows c h x × ((x.nonce == 0) ≡ false)
  unfolding is_hdr_construction_valid
  valid-Follows x h e g v = elim (Bool-cases (x.nonce == 0)) [
    | inl t ↦ cc
    | inr t ↦ (check_follows-Follows c x h (rw t at v), t)
  ]

  check_each-Chained :
      (n i : ℕ) (hs : List Header) (h l : Header) (e : Error)
      → h.nonce < two64
      → check_genesis h ≡ some e
      → check_each c n i hs h ≡ ok l
      → Chained c h hs l
  unfolding check_each
  check_each-Chained n i [] h l e b g k = let p : h ≡ l = ok-eq k in rw p nothing
  check_each-Chained n i (x ∷ xs) h l e b g k =
      let p = unless_error-ok (check_header_type_correct n i (some x)) _ k in
      let q = unless_error-ok (is_hdr_construction_valid c x (some h)) _ p.1 in
      let v = valid-Follows x h e g q.0 in
      let s = next_nonce x.nonce h.nonce b v.0.next v.1 in
      link v.0 s (
        check_each-Chained n i xs x l err_wrong_nonce_in_block (next_bound x.nonce h.nonce v.0.next)
          (check_genesis-nonzero x v.1) q.1)

pub length-insert_by_nonce :
    (h : Header) (xs : List Header) → length (insert_by_nonce h xs) ≡ suc (length xs)
unfolding insert_by_nonce
length-insert_by_nonce h [] = refl
length-insert_by_nonce h (x ∷ xs) = ground (arith, length-insert_by_nonce h xs)

pub length-sort_by_nonce : (xs : List Header) → length (sort_by_nonce xs) ≡ length xs
unfolding sort_by_nonce
length-sort_by_nonce [] = refl
length-sort_by_nonce (x ∷ xs) =
    length-insert_by_nonce x (sort_by_nonce xs) ∙ ap suc (length-sort_by_nonce xs)

pub last_of-append : (xs : List Header) (h : Header) → last_of (xs ++ h ∷ []) ≡ some h
unfolding last_of
last_of-append [] h = refl
last_of-append (x ∷ xs) h = rw (last_of-append xs h, last_of) refl

pub headers_of-add_last :
    (i j : ℕ) (h : Header) (m : HeaderLists)
    → headers_of j (add_last_notarized_hdr i h m)
      ≡ (if i == j then headers_of i m ++ h ∷ [] else headers_of j m)
unfolding headers_of add_last_notarized_hdr slice_of
headers_of-add_last i j h m =
    rw (lookup-insert j i (slice_of (lookup i m) ++ h ∷ []) m)
      (elim (Bool-cases (i == j)) [ inl t ↦ rw t refl | inr t ↦ rw t refl ])

self_eq : (k : ℕ) → (k == k) ≡ true
self_eq k = ground arith

module _ (c : Codec) (n i : ℕ) where
  pub save_checked-ok :
      (r : Result Header) (m m' : HeaderLists)
      → save_checked c n i r m ≡ (m', none)
      → (l : Header) × (r ≡ ok l) × (add_last_notarized_hdr i l m ≡ m')
  unfolding save_checked
  save_checked-ok (ok l) m m' e = (l, refl, ap (λ p. p.0) e)
  save_checked-ok (err x) m m' e = cc

  -- Where SaveLastNotarizedHeader says no error for a shard whose last notarized header has a root
  -- hash, the headers, in the order of their nonces, are each built on the one before, the first of
  -- them on the last notarized one; the last of them is the shard's new last notarized header, its
  -- nonce is larger by their number, and the headers of the other shards stay.
  pub save_last_notarized_header-Chained :
      (hs : List Header) (m m' : HeaderLists) (h : Header) (root : Bytes)
      → h.nonce < two64
      → h.root_hash ≡ some root
      → last_notarized_hdr_for_shard i m ≡ some h
      → save_last_notarized_header c n i hs m ≡ (m', none)
      → (l : Header) × Chained c h (sort_by_nonce hs) l
        × (last_notarized_hdr_for_shard i m' ≡ some l)
        × (l.nonce ≡ h.nonce + length hs)
        × ((j : ℕ) → (i == j) ≡ false → headers_of j m' ≡ headers_of j m)
  unfolding save_last_notarized_header
  save_last_notarized_header-Chained hs m m' h root b r k e =
      let s = save_checked-ok _ m m' e in
      let p =
        unless_error-ok (check_header_type_correct n i (last_notarized_hdr_for_shard i m)) _ s.1 in
      let q : check_each c n i (sort_by_nonce hs) h ≡ ok s.0 =
        unfold check_from in sym (ap (check_from c n i (sort_by_nonce hs)) k) ∙ p.1 in
      let g = check_genesis-root h root r in
      let t = check_each-Chained c n i (sort_by_nonce hs) h s.0 g.0 b g.1 q in
      let a = headers_of-add_last i i s.0 m in
      let last : last_notarized_hdr_for_shard i m' ≡ some s.0 =
        sym (ap (last_notarized_hdr_for_shard i) s.2)
        ∙ (unfold last_notarized_hdr_for_shard in
            ap last_of (rw (self_eq i) at a) ∙ last_of-append (headers_of i m) s.0) in
      let nonce : s.0.nonce ≡ h.nonce + length hs =
        omega (arith, Chained-nonce c h s.0 (sort_by_nonce hs) t, length-sort_by_nonce hs) in
      let others : (j : ℕ) → (i == j) ≡ false → headers_of j m' ≡ headers_of j m =
        λ j u. let b = headers_of-add_last i j s.0 m in sym (ap (headers_of j) s.2) ∙ (rw u at b) in
      (s.0, t, last, nonce, others)
