-- ===== src/Blocks/Requested.antt =====
-- requestMetaHeaders: what is requested, and the wait for it.
use elrond_go.Prelude.{
  ℕ, suc, ◌≡◌, refl, sym, ◌∙◌, ◌+◌, ◌^◌, ◌<◌, ◌≤◌, inl, inr, true, false, Option, none, some, List,
  [], ◌∷◌, arith, ltb, Bool-cases, Option-cases, length,
}
use mathlib.Core.Path.{subst}
use elrond_go.Prelude.Bytes.{Bytes, bytes_eq, bytes_eq_iff}
use elrond_go.Prelude.Keyed.{is_in, lookup_at, lookup_at-insert_at}
use elrond_go.Blocks.Types.{Header}
use elrond_go.Blocks.Current.{
  HdrInfo, HdrForBlock, MetaPool, Shard, up32, reset_missing_hdrs, create_block_started,
  get_meta_header_from_pool, raise_highest, put_used, note_meta, compute_missing_and_existing,
  is_missing, missing_headers_hashes, put_missing, request_meta_headers,
}
use elrond_go.Blocks.Arrivals.{wait_for_meta_hdr_hashes}
use elrond_go.Blocks.Missing.{
  nil_header, nil_info, nil_entries, nil_entries-insert_at, Counted, highest_of, nil_entries-filled,
  request_if_none_missing-Counted, Waited, wait-Waited,
}

-- no hash stands twice in a list
abbrev pub NoRepeats : List Bytes → Type 0
NoRepeats [] = Unit
NoRepeats (x ∷ xs) = (is_in x xs ≡ false) × NoRepeats xs

-- what the loop over the hashes of the header keeps: no header is nil, and what is not in the pool
-- has no entry
record Noted (p : MetaPool) (n : ℕ) (d : HdrForBlock) : Type 0 where
  number : d.missing_hdrs ≡ n
  full : nil_entries d.hdr_hash_and_info ≡ 0
  absent : (k : Bytes) → is_missing p k ≡ true → lookup_at k d.hdr_hash_and_info ≡ none

raise_highest-Noted :
    (p : MetaPool) (n : ℕ) (h : Header) (d : HdrForBlock)
    → Noted p n d
    → Noted p n (raise_highest h d)
unfolding raise_highest
raise_highest-Noted p n h d c = elim (Bool-cases (ltb (highest_of d) h.nonce)) [
  | inl t ↦ rw t (record { number = c.number; full = c.full; absent = c.absent })
  | inr t ↦ rw t c
]

note_meta-none :
    (p : MetaPool) (n : ℕ) (k : Bytes) (o : Option Header) (d : HdrForBlock)
    → o ≡ none
    → suc n < 2 ^ 32
    → Noted p n d
    → Noted p (suc n) (note_meta k o d)
unfolding note_meta up32
note_meta-none p n k none d e b c = record {
  number = rw c.number (ground (arith, b));
  full = c.full;
  absent = c.absent;
}
note_meta-none p n k (some h) d e b c = cc

note_meta-some :
    (p : MetaPool) (n : ℕ) (k : Bytes) (h : Header) (d : HdrForBlock)
    → is_missing p k ≡ false
    → Noted p n d
    → Noted p n (note_meta k (some h) d)
unfolding note_meta put_used
note_meta-some p n k h d e c =
    let v : HdrInfo = record { used_in_block = true; hdr = some h } in
    raise_highest-Noted p n h _ (record {
      number = c.number;
      full = nil_entries-filled k h true d.hdr_hash_and_info c.full;
      absent = λ j t.
          let u : bytes_eq k j ≡ false = elim (Bool-cases (bytes_eq k j)) [
            | inl w ↦ let q = (bytes_eq_iff k j).0 w in let r = rw q at e in cc
            | inr w ↦ w
          ] in
          lookup_at-insert_at j k v d.hdr_hash_and_info ∙ rw u (c.absent j t);
    })

Noted-cast : (p : MetaPool) (d : HdrForBlock) {n m : ℕ} → n ≡ m → Noted p n d → Noted p m d
Noted-cast p d e c = record { number = c.number ∙ e; full = c.full; absent = c.absent }

is_missing-none :
    (p : MetaPool) (k : Bytes) → get_meta_header_from_pool k p ≡ none → is_missing p k ≡ true
unfolding is_missing
is_missing-none p k e = rw (e, is_missing) refl

is_missing-some :
    (p : MetaPool) (k : Bytes) (h : Header)
    → get_meta_header_from_pool k p ≡ some h
    → is_missing p k ≡ false
unfolding is_missing
is_missing-some p k h e = rw (e, is_missing) refl

compute-Noted :
    (p : MetaPool) (hashes : List Bytes) (n : ℕ) (d : HdrForBlock)
    → n + length hashes < 2 ^ 32
    → Noted p n d
    → Noted p
        (n + length (missing_headers_hashes p hashes))
        (compute_missing_and_existing p hashes d)
unfolding compute_missing_and_existing missing_headers_hashes
compute-Noted p [] n d b c = Noted-cast p d (omega arith) c
compute-Noted p (k ∷ ks) n d b c = elim (Option-cases (get_meta_header_from_pool k p)) [
  | inl t ↦ rw (is_missing-none p k t) (
      Noted-cast p _ (omega arith) (
        compute-Noted p ks (suc n) (note_meta k (get_meta_header_from_pool k p) d) (omega arith)
          (note_meta-none p n k (get_meta_header_from_pool k p) d t (omega arith) c)))
  | inr (h, t) ↦
      rw (is_missing-some p k h t, t)
        (compute-Noted p ks n (note_meta k (some h) d) (omega arith)
          (note_meta-some p n k h d (is_missing-some p k h t) c))
]

is_in-missing_headers_hashes :
    (p : MetaPool) (k : Bytes) (ks : List Bytes)
    → is_in k (missing_headers_hashes p ks) ≡ true
    → is_missing p k ≡ true
unfolding missing_headers_hashes is_in
is_in-missing_headers_hashes p k [] h = cc
is_in-missing_headers_hashes p k (x ∷ xs) h =
    ground (arith, bytes_eq_iff x k, is_in-missing_headers_hashes p k xs)

missing_headers_hashes-absent :
    (p : MetaPool) (k : Bytes) (ks : List Bytes)
    → is_in k ks ≡ false
    → is_in k (missing_headers_hashes p ks) ≡ false
unfolding missing_headers_hashes is_in
missing_headers_hashes-absent p k [] h = refl
missing_headers_hashes-absent p k (x ∷ xs) h = ground (arith, missing_headers_hashes-absent p k xs)

length-missing_headers_hashes :
    (p : MetaPool) (ks : List Bytes) → length (missing_headers_hashes p ks) ≤ length ks
unfolding missing_headers_hashes
length-missing_headers_hashes p [] = omega arith
length-missing_headers_hashes p (x ∷ xs) = ground (arith, length-missing_headers_hashes p xs)

missing_headers_hashes-NoRepeats :
    (p : MetaPool) (ks : List Bytes) → NoRepeats ks → NoRepeats (missing_headers_hashes p ks)
unfolding missing_headers_hashes
missing_headers_hashes-NoRepeats p [] h = tt
missing_headers_hashes-NoRepeats p (x ∷ xs) h = elim (Bool-cases (is_missing p x)) [
  | inl t ↦
      rw t (missing_headers_hashes-absent p x xs h.0, missing_headers_hashes-NoRepeats p xs h.1)
  | inr t ↦ rw t (missing_headers_hashes-NoRepeats p xs h.1)
]

nil_entries-put_used :
    (k : Bytes) (d : HdrForBlock)
    → lookup_at k d.hdr_hash_and_info ≡ none
    → nil_entries (put_used k none d).hdr_hash_and_info ≡ suc (nil_entries d.hdr_hash_and_info)
unfolding put_used
nil_entries-put_used k d e =
    let v : HdrInfo = record { used_in_block = true; hdr = none } in
    let n = nil_entries-insert_at k v d.hdr_hash_and_info in
    let one : nil_header none ≡ 1 = unfold nil_header in refl in
    let z : nil_info (lookup_at k d.hdr_hash_and_info) ≡ 0 = rw e (unfold nil_info in refl) in
    omega (arith, n, one, z)

lookup_at-put_used :
    (j k : Bytes) (d : HdrForBlock)
    → bytes_eq k j ≡ false
    → lookup_at j (put_used k none d).hdr_hash_and_info ≡ lookup_at j d.hdr_hash_and_info
unfolding put_used
lookup_at-put_used j k d e =
    let a =
      lookup_at-insert_at j k (record { used_in_block = true; hdr = none }) d.hdr_hash_and_info in
    rw e at a

later_absent :
    (k j : Bytes) (ks : List Bytes) (d : HdrForBlock)
    → is_in k ks ≡ false
    → is_in j ks ≡ true
    → (is_in j (k ∷ ks) ≡ true → lookup_at j d.hdr_hash_and_info ≡ none)
    → lookup_at j (put_used k none d).hdr_hash_and_info ≡ none
later_absent k j ks d u t a =
    let ne : bytes_eq k j ≡ false = elim (Bool-cases (bytes_eq k j)) [
      | inl w ↦ let q = (bytes_eq_iff k j).0 w in let r = rw q at u in cc
      | inr w ↦ w
    ] in
    lookup_at-put_used j k d ne ∙ a (unfold is_in in rw (ne, t) refl)

missing_hdrs-put_used :
    (k : Bytes) (d : HdrForBlock) → (put_used k none d).missing_hdrs ≡ d.missing_hdrs
unfolding put_used
missing_hdrs-put_used k d = refl

put_missing_lem :
    (ks : List Bytes) (d : HdrForBlock)
    → NoRepeats ks
    → ((k : Bytes) → is_in k ks ≡ true → lookup_at k d.hdr_hash_and_info ≡ none)
    → (nil_entries (put_missing ks d).hdr_hash_and_info
        ≡ nil_entries d.hdr_hash_and_info + length ks)
      × ((put_missing ks d).missing_hdrs ≡ d.missing_hdrs)
unfolding put_missing
put_missing_lem [] d u a = (omega arith, refl)
put_missing_lem (k ∷ ks) d u a =
    let first : is_in k (k ∷ ks) ≡ true = unfold is_in in rw ((bytes_eq_iff k k).1 refl) refl in
    let e = nil_entries-put_used k d (a k first) in
    let still : (j : Bytes)
        → is_in j ks ≡ true
        → lookup_at j (put_used k none d).hdr_hash_and_info ≡ none =
      λ j t. later_absent k j ks d u.0 t (a j) in
    let r = put_missing_lem ks (put_used k none d) u.1 still in
    let same : (put_used k none d).missing_hdrs ≡ d.missing_hdrs = missing_hdrs-put_used k d in
    (omega (arith, e, r.0), r.1 ∙ same)

request_meta_headers-Counted :
    (p : MetaPool) (finality : ℕ) (hashes : List Bytes) (d : HdrForBlock)
    → NoRepeats hashes
    → length hashes < 2 ^ 32
    → Counted (request_meta_headers p finality hashes (create_block_started d))
unfolding request_meta_headers create_block_started reset_missing_hdrs
request_meta_headers-Counted p finality [] d u b = record {
  counted = unfold nil_entries in refl;
  bounded = unfold nil_entries in omega arith;
}
request_meta_headers-Counted p finality (k ∷ ks) d u b =
    let start : HdrForBlock = create_block_started d in
    let c = compute-Noted p (k ∷ ks) 0 start (omega arith) (record {
      number = refl;
      full = unfold nil_entries in refl;
      absent = λ j t. unfold lookup_at in refl;
    }) in
    let ms = missing_headers_hashes p (k ∷ ks) in
    let noted = compute_missing_and_existing p (k ∷ ks) start in
    let r =
      put_missing_lem ms noted (missing_headers_hashes-NoRepeats p (k ∷ ks) u)
        (λ j t. c.absent j (is_in-missing_headers_hashes p j (k ∷ ks) t)) in
    let total : nil_entries (put_missing ms noted).hdr_hash_and_info ≡ length ms =
      omega (arith, r.0, c.full) in
    let counter : (put_missing ms noted).missing_hdrs ≡ length ms = omega (arith, r.1, c.number) in
    let few = length-missing_headers_hashes p (k ∷ ks) in
    request_if_none_missing-Counted p finality (put_missing ms noted)
      (record { counted = counter ∙ sym total; bounded = rw total (omega (arith, few, b)) })

-- After requestMetaHeaders for a block whose meta hashes are distinct and fewer than 2 ^ 32, and any
-- meta blocks that arrive while waitForMetaHdrHashes waits, the counter of the missing headers is the
-- number of the entries whose header is nil, and where the wait ends without an error no header is nil.
pub wait_for_meta_hdr_hashes-request_meta_headers :
    (n allowed finality : ℕ) (arrivals : List (Bytes × Header)) (hashes : List Bytes)
    (d : HdrForBlock) (s : Shard)
    → NoRepeats hashes
    → length hashes < 2 ^ 32
    → s.current ≡ request_meta_headers s.pool finality hashes (create_block_started d)
    → Waited n allowed finality (wait_for_meta_hdr_hashes n allowed finality arrivals s)
wait_for_meta_hdr_hashes-request_meta_headers n allowed finality arrivals hashes d s u b e =
    wait-Waited n allowed finality arrivals s
      (subst Counted (sym e) (request_meta_headers-Counted s.pool finality hashes d u b))
