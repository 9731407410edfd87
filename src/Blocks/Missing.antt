-- ===== src/Blocks/Missing.antt =====
-- The counter of the missing meta headers against the headers that are nil in the map.
use elrond_go.Prelude.{
  ℕ, zero, suc, ◌≡◌, refl, sym, ◌∙◌, ◌+◌, ◌^◌, ◌<◌, inl, inr, Bool, true, false, Option, none, some,
  List, [], ◌∷◌, arith, ltb, ◌==◌, Bool-cases, Option-cases,
}
use elrond_go.Prelude.Bytes.{Bytes, bytes_eq}
use elrond_go.Prelude.Keyed.{lookup_at, insert_at}
use elrond_go.Prelude.Maps.{lookup}
use elrond_go.Blocks.Types.{Error, Header, metachain_shard_id}
use elrond_go.Blocks.Current.{
  HdrInfo, HdrForBlock, MetaPool, Shard, down32, get_headers_from_pools, put_attesting,
  nonce_or_zero, request_attesting, with_attesting, request_missing_finality_attesting_headers,
  raise_highest, request_if_none_missing,
}
use elrond_go.Blocks.Arrivals.{
  is_awaited, fill, take_meta_block, have_missing, receive_for_block, drop_out_of_range,
  receive_found, received_meta_block, arrive, wait_for_meta_hdr_hashes, is_header_out_of_range,
}

unfoldable pub nil_header : Option Header → ℕ
nil_header none = 1
nil_header (some h) = 0

unfoldable pub nil_info : Option HdrInfo → ℕ
nil_info none = 0
nil_info (some i) = nil_header i.hdr

-- the number of the entries whose header is nil
unfoldable pub nil_entries : List (Bytes × HdrInfo) → ℕ
nil_entries [] = 0
nil_entries ((hash, i) ∷ m) = nil_header i.hdr + nil_entries m

pub nil_entries-insert_at :
    (k : Bytes) (v : HdrInfo) (m : List (Bytes × HdrInfo))
    → nil_entries (insert_at k v m) + nil_info (lookup_at k m) ≡ nil_entries m + nil_header v.hdr
unfolding nil_entries insert_at lookup_at nil_info
nil_entries-insert_at k v [] = omega arith
nil_entries-insert_at k v ((j, w) ∷ m) = elim (Bool-cases (bytes_eq j k)) [
  | inl t ↦ rw t (omega arith)
  | inr t ↦ let ih = nil_entries-insert_at k v m in rw t (omega arith)
]

-- The counter is the number of the nil headers, and has not wrapped around.
pub record Counted (d : HdrForBlock) : Type 0 where
  pub counted : d.missing_hdrs ≡ nil_entries d.hdr_hash_and_info
  pub bounded : nil_entries d.hdr_hash_and_info < 2 ^ 32

pub nil_entries-filled :
    (k : Bytes) (h : Header) (u : Bool) (m : List (Bytes × HdrInfo))
    → nil_entries m ≡ 0
    → nil_entries (insert_at k (record { used_in_block = u; hdr = some h }) m) ≡ 0
nil_entries-filled k h u m e =
    let n = nil_entries-insert_at k (record { used_in_block = u; hdr = some h }) m in
    let z : nil_header (some h) ≡ 0 = unfold nil_header in refl in omega (arith, n, z, e)

nil_entries-put_attesting :
    (hs : List (Bytes × Header)) (m : List (Bytes × HdrInfo))
    → nil_entries m ≡ 0
    → nil_entries (put_attesting hs m) ≡ 0
unfolding put_attesting
nil_entries-put_attesting [] m e = e
nil_entries-put_attesting ((k, h) ∷ hs) m e =
    nil_entries-put_attesting hs (insert_at k (record { used_in_block = false; hdr = some h }) m)
      (nil_entries-filled k h false m e)

nil_entries-request_attesting :
    (p : MetaPool) (k nonce missing : ℕ) (m : List (Bytes × HdrInfo))
    → nil_entries m ≡ 0
    → nil_entries (request_attesting p k nonce missing m).1 ≡ 0
unfolding request_attesting
nil_entries-request_attesting p zero nonce missing m e = e
nil_entries-request_attesting p (suc k) nonce missing m e =
    nil_entries-request_attesting p k (nonce + 1) _ _
      (nil_entries-put_attesting (get_headers_from_pools p _ nonce) m e)

abbrev pub highest_of : HdrForBlock → ℕ
highest_of d = nonce_or_zero (lookup metachain_shard_id d.highest_hdr_nonce)

request_missing-Counted :
    (p : MetaPool) (finality : ℕ) (d : HdrForBlock)
    → d.missing_hdrs ≡ 0
    → Counted d
    → Counted (request_missing_finality_attesting_headers p finality d)
unfolding request_missing_finality_attesting_headers with_attesting
request_missing-Counted p finality d z c =
    let e =
      nil_entries-request_attesting p finality (highest_of d + 1) 0 d.hdr_hash_and_info
        (sym c.counted ∙ z) in
    elim (Bool-cases (highest_of d == 0)) [
      | inl t ↦ rw t (record { counted = c.counted; bounded = c.bounded })
      | inr t ↦ rw t (record { counted = z ∙ sym e; bounded = rw e (omega arith) })
    ]

pub request_if_none_missing-Counted :
    (p : MetaPool) (finality : ℕ) (d : HdrForBlock)
    → Counted d
    → Counted (request_if_none_missing p finality d)
unfolding request_if_none_missing
request_if_none_missing-Counted p finality d c = elim (Bool-cases (d.missing_hdrs == 0)) [
  | inl t ↦ rw t (request_missing-Counted p finality d (ground arith) c)
  | inr t ↦ rw t c
]

raise_highest-Counted : (h : Header) (d : HdrForBlock) → Counted d → Counted (raise_highest h d)
unfolding raise_highest
raise_highest-Counted h d c = elim (Bool-cases (ltb (highest_of d) h.nonce)) [
  | inl t ↦ rw t (record { counted = c.counted; bounded = c.bounded })
  | inr t ↦ rw t c
]

fill-Counted :
    (k : Bytes) (h : Header) (o : Option HdrInfo) (d : HdrForBlock)
    → lookup_at k d.hdr_hash_and_info ≡ o
    → is_awaited o ≡ true
    → Counted d
    → Counted (fill k h o d)
unfolding fill is_awaited
fill-Counted k h none d e a c = cc
fill-Counted k h (some i) d e a c = elim (Option-cases i.hdr) [
  | inr (x, t) ↦ let q = rw t at a in cc
  | inl t ↦
      let v : HdrInfo = record i { hdr = some h } in
      let n = nil_entries-insert_at k v d.hdr_hash_and_info in
      let z : nil_header (some h) ≡ 0 = unfold nil_header in refl in
      let one : nil_info (lookup_at k d.hdr_hash_and_info) ≡ 1 =
        rw e (unfold nil_info nil_header in rw t refl) in
      let less : suc (nil_entries (insert_at k v d.hdr_hash_and_info))
          ≡ nil_entries d.hdr_hash_and_info =
        omega (arith, n, z, one) in
      let b = c.bounded in
      let down : down32 d.missing_hdrs ≡ nil_entries (insert_at k v d.hdr_hash_and_info) =
        unfold down32 in rw c.counted (ground (arith, less, b)) in
      raise_highest-Counted h _ (record { counted = down; bounded = omega (arith, less, b) })
]

take_meta_block-Counted :
    (k : Bytes) (h : Header) (d : HdrForBlock) → Counted d → Counted (take_meta_block k h d)
unfolding take_meta_block
take_meta_block-Counted k h d c = elim (Bool-cases (is_awaited (lookup_at k d.hdr_hash_and_info))) [
  | inl t ↦ rw t (fill-Counted k h (lookup_at k d.hdr_hash_and_info) d refl t c)
  | inr t ↦ rw t c
]

receive_for_block-Counted :
    (p : MetaPool) (finality : ℕ) (k : Bytes) (h : Header) (d : HdrForBlock)
    → Counted d
    → Counted (receive_for_block p finality k h d)
unfolding receive_for_block
receive_for_block-Counted p finality k h d c = elim (Bool-cases (have_missing d)) [
  | inl t ↦ rw t (
      request_if_none_missing-Counted p finality (take_meta_block k h d)
        (take_meta_block-Counted k h d c))
  | inr t ↦ rw t c
]

none_missing : (d : HdrForBlock) → have_missing d ≡ false → d.missing_hdrs ≡ 0
unfolding have_missing
none_missing d h = ground arith

module _ (n allowed finality : ℕ) where
  receive_found-Counted :
      (k : Bytes) (o : Option Header) (s : Shard)
      → Counted s.current
      → Counted (receive_found n allowed finality k o s).current
  unfolding receive_found drop_out_of_range
  receive_found-Counted k none s c = c
  receive_found-Counted k (some h) s c =
      let r = receive_for_block-Counted s.pool finality k h s.current c in
      elim (Bool-cases (is_header_out_of_range n allowed h s.notarized_hdrs)) [
        | inl t ↦ rw t r
        | inr t ↦ rw t r
      ]

  arrive-Counted :
      (a : Bytes × Header) (s : Shard)
      → Counted s.current
      → Counted (arrive n allowed finality a s).current
  unfolding arrive received_meta_block
  arrive-Counted (k, h) s c = receive_found-Counted k _ _ c

  -- what is left after a wait
  pub record Waited (r : Shard × Option Error) : Type 0 where
    pub kept : Counted r.0.current
    pub complete : r.1 ≡ none → nil_entries r.0.current.hdr_hash_and_info ≡ 0

  pub wait-Waited :
      (arrivals : List (Bytes × Header)) (s : Shard)
      → Counted s.current
      → Waited (wait_for_meta_hdr_hashes n allowed finality arrivals s)
  unfolding wait_for_meta_hdr_hashes
  wait-Waited [] s c = record { kept = c; complete = λ e. cc }
  wait-Waited (a ∷ arrivals) s c =
      let s' = arrive n allowed finality a s in
      let c' = arrive-Counted a s c in
      elim (Bool-cases (have_missing s'.current)) [
        | inl t ↦ rw t (wait-Waited arrivals s' c')
        | inr t ↦
            rw t (record { kept = c'; complete = λ e. sym c'.counted ∙ none_missing s'.current t })
      ]
