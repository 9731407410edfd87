-- ===== src/Blocks/Used.antt =====
-- The meta headers that a block uses, against checkMetaHeadersValidityAndFinality in shardblock.go.
use elrond_go.Prelude.{
  ℕ, ◌%◌, ◌≡◌, refl, sym, ap, ◌+◌, ◌<◌, inl, inr, true, false, Option, none, some, List, [], ◌∷◌,
  ◌++◌, arith, ltb, leb, ◌==◌, Bool-cases,
}
use elrond_go.Prelude.Bytes.{Bytes, bytes_eq}
use elrond_go.Prelude.Keyed.{lookup_at, insert_at}
use elrond_go.Blocks.Types.{Header, Codec}
use elrond_go.Prelude.Int.{two64}
use elrond_go.Blocks.Validity.{is_hdr_construction_valid, check_genesis, check_follows}
use elrond_go.Blocks.Notarized.{insert_by_nonce, sort_by_nonce}
use elrond_go.Blocks.Finality.{check_meta_hdr_finality, check_used}
use elrond_go.Blocks.Current.{HdrInfo}

-- the used headers, in the order in which they were added
unfoldable pub header_list : Option Header → List Header
header_list none = []
header_list (some h) = h ∷ []

unfoldable pub used_headers : List (Bytes × HdrInfo) → List Header
used_headers [] = []
used_headers ((hash, i) ∷ m) = header_list i.hdr ++ used_headers m

-- each header passes isHdrConstructionValid against the one before
pub data Valid (c : Codec) : Header → List Header → Header → Type 0 where
  nothing : {h : Header} → Valid c h [] h
  link :
      {h x l : Header} {xs : List Header}
      → is_hdr_construction_valid c x (some h) ≡ none
      → Valid c x xs l
      → Valid c h (x ∷ xs) l

pub Valid-append :
    (c : Codec) (h l x : Header) (xs : List Header)
    → Valid c h xs l
    → is_hdr_construction_valid c x (some l) ≡ none
    → Valid c h (xs ++ x ∷ []) x
Valid-append c h l x xs nothing v = link v nothing
Valid-append c h l x xs (link {x = y} {xs = ys} e k) v = link e (Valid-append c y l x ys k v)

-- validators go through the headers up to the check of the finality of the last one
pub check_used-Valid :
    (c : Codec) (finality : ℕ) (attesting : List Header) (h l : Header) (xs : List Header)
    → Valid c h xs l
    → check_used c finality attesting xs h ≡ check_meta_hdr_finality c finality (some l) attesting
unfolding check_used
check_used-Valid c finality attesting h l xs nothing = refl
check_used-Valid c finality attesting h l xs (link {x = x} {xs = ys} e k) =
    rw (e, check_used) (check_used-Valid c finality attesting x l ys k)

-- a nonce of 64 bits does not wrap around: the nonce 0 is checked as the one of the genesis
valid-ordered :
    (c : Codec) (x h : Header)
    → h.nonce < two64
    → is_hdr_construction_valid c x (some h) ≡ none
    → (ltb x.nonce h.nonce ≡ false) × (x.nonce < two64)
unfolding is_hdr_construction_valid check_genesis check_follows
valid-ordered c x h b e = elim (Bool-cases (x.nonce == 0)) [
  | inl z ↦ elim (Bool-cases (h.nonce == 0)) [
    | inl w ↦ (ground arith, ground arith)
    | inr w ↦ let q = rw (z, w) at e in cc
  ]
  | inr z ↦ elim (Bool-cases (leb x.round h.round)) [
    | inl r ↦ let q = rw (z, r) at e in cc
    | inr r ↦ elim (Bool-cases (x.nonce == (h.nonce + 1) % two64)) [
      | inl w ↦ (ground arith, ground arith)
      | inr w ↦ let q = rw (z, r, w) at e in cc
    ]
  ]
]

pub sort_by_nonce-Valid :
    (c : Codec) (h l : Header) (xs : List Header)
    → h.nonce < two64
    → Valid c h xs l
    → sort_by_nonce xs ≡ xs
unfolding sort_by_nonce insert_by_nonce
sort_by_nonce-Valid c h l xs b nothing = refl
sort_by_nonce-Valid c h l xs b (link e nothing) = refl
sort_by_nonce-Valid c h l xs b (link {x = x} {xs = ys} e (link {x = y} {xs = zs} f k)) =
    let o = valid-ordered c x h b e in
    let p = valid-ordered c y x o.1 f in
    rw (sort_by_nonce-Valid c x l (y ∷ zs) o.1 (link f k), p.0) refl

append_assoc : (xs ys zs : List Header) → (xs ++ ys) ++ zs ≡ xs ++ (ys ++ zs)
append_assoc [] ys zs = refl
append_assoc (x ∷ xs) ys zs = ap (λ t. x ∷ t) (append_assoc xs ys zs)

pub used_headers-insert_at :
    (k : Bytes) (h : Header) (m : List (Bytes × HdrInfo))
    → lookup_at k m ≡ none
    → used_headers (insert_at k (record { used_in_block = true; hdr = some h }) m)
      ≡ used_headers m ++ h ∷ []
unfolding used_headers insert_at lookup_at header_list
used_headers-insert_at k h [] e = refl
used_headers-insert_at k h ((j, i) ∷ m) e = elim (Bool-cases (bytes_eq j k)) [
  | inl t ↦ let q = rw t at e in cc
  | inr t ↦
      let u = rw t at e in
      rw (t, used_headers, used_headers-insert_at k h m u)
        (sym (append_assoc (header_list i.hdr) (used_headers m) (h ∷ [])))
]
