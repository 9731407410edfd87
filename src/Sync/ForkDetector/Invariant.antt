-- ===== src/Sync/ForkDetector/Invariant.antt =====
-- What holds of the map of headers and of the checkpoints between two calls.
use mathlib.Core.Path.{subst}
use elrond_go.Prelude.{
  ℕ, ◌≡◌, refl, inl, inr, not, Option, none, some, some-eq, List, [], ◌∷◌, ◌++◌, ltb, leb,
  Bool-cases, Option-cases,
}
use elrond_go.Prelude.Maps.{
  All, keep, lookup, delete, Distinct, Distinct-insert, Distinct-delete, Distinct-update_each,
  AllEntries, AllEntries-insert, AllEntries-delete, AllEntries-lookup, AllEntries-update_each,
}
use elrond_go.Sync.ForkDetector.Types.{
  proposed, notarized, state_eq, HeaderInfo, CheckpointInfo, HeaderMap, ForkDetector,
}
use elrond_go.Sync.ForkDetector.Store.{
  bucket, non_empty, past_entry, valid_entry, higher_entry, put_bucket, notarized_only, is_stored,
  is_received_header_invalid, remove_past_headers, remove_invalid_received_headers,
  remove_past_or_invalid_records, remove_headers, append_header,
  cleanup_received_headers_higher_than_nonce, set_last_proposed_block_nonce,
}
use elrond_go.Sync.ForkDetector.Buckets.{
  NoRepeats, IsStoredAt, IsBucket, IsBucket-keep, IsBucket-snoc,
}

-- the keys are distinct, and each bucket is one
pub record IsHeaderMap (m : HeaderMap) : Type 0 where
  pub distinct : Distinct m
  pub buckets : AllEntries IsBucket m

past_entry-IsBucket :
    (final k : ℕ) (v w : List HeaderInfo)
    → IsBucket k v
    → past_entry final k v ≡ some w
    → IsBucket k w
unfolding past_entry
past_entry-IsBucket final k v w b e = elim (Bool-cases (ltb k final)) [
  | inl t ↦ let x : none ≡ some w = rw t at e in cc
  | inr t ↦ let x : some v ≡ some w = rw t at e in subst (IsBucket k) (some-eq x) b
]

valid_entry-IsBucket :
    (final : CheckpointInfo) (k : ℕ) (v w : List HeaderInfo)
    → IsBucket k v
    → valid_entry final k v ≡ some w
    → IsBucket k w
unfolding valid_entry
valid_entry-IsBucket final k v w b e =
    IsBucket-keep (λ h. not (is_received_header_invalid final h)) k v w b e

higher_entry-IsBucket :
    (bound k : ℕ) (v w : List HeaderInfo)
    → IsBucket k v
    → higher_entry bound k v ≡ some w
    → IsBucket k w
unfolding higher_entry notarized_only
higher_entry-IsBucket bound k v w b e = elim (Bool-cases (leb k bound)) [
  | inl t ↦ let x : some v ≡ some w = rw t at e in subst (IsBucket k) (some-eq x) b
  | inr t ↦ IsBucket-keep (λ h. state_eq h.state notarized) k v w b (rw t at e)
]

module _ (d : ForkDetector) (m : IsHeaderMap d.headers) where
  pub remove_past_headers-IsHeaderMap : IsHeaderMap (remove_past_headers d).headers
  unfolding remove_past_headers
  remove_past_headers-IsHeaderMap = record {
    distinct = Distinct-update_each (past_entry d.final_checkpoint.nonce) d.headers m.distinct;
    buckets =
        AllEntries-update_each IsBucket IsBucket (past_entry d.final_checkpoint.nonce)
          (past_entry-IsBucket d.final_checkpoint.nonce) d.headers m.buckets;
  }

  pub remove_invalid_received_headers-IsHeaderMap :
      IsHeaderMap (remove_invalid_received_headers d).headers
  unfolding remove_invalid_received_headers
  remove_invalid_received_headers-IsHeaderMap = record {
    distinct = Distinct-update_each (valid_entry d.final_checkpoint) d.headers m.distinct;
    buckets =
        AllEntries-update_each IsBucket IsBucket (valid_entry d.final_checkpoint)
          (valid_entry-IsBucket d.final_checkpoint) d.headers m.buckets;
  }

  pub cleanup-IsHeaderMap :
      (bound : ℕ) → IsHeaderMap (cleanup_received_headers_higher_than_nonce bound d).headers
  unfolding cleanup_received_headers_higher_than_nonce
  cleanup-IsHeaderMap bound = record {
    distinct = Distinct-update_each (higher_entry bound) d.headers m.distinct;
    buckets =
        AllEntries-update_each IsBucket IsBucket (higher_entry bound) (higher_entry-IsBucket bound)
          d.headers m.buckets;
  }

  -- a bucket of the map, or the empty slice of a missing key
  bucket-entries :
      (k : ℕ) → All (IsStoredAt k) (bucket d.headers k) × NoRepeats (bucket d.headers k)
  unfolding bucket
  bucket-entries k = elim (Option-cases (lookup k d.headers)) [
    | inl e ↦ rw (e, bucket) (tt, tt)
    | inr (infos, e) ↦
        let b : IsBucket k infos = AllEntries-lookup IsBucket k d.headers m.buckets e in
        rw (e, bucket) (b.entries, b.distinct)
  ]

  pub append_header-IsHeaderMap : (h : HeaderInfo) → IsHeaderMap (append_header h d).headers
  unfolding append_header set_last_proposed_block_nonce
  append_header-IsHeaderMap h = elim (Bool-cases (state_eq h.state proposed)) [
    | inl p ↦ rw p m
    | inr p ↦ elim (Bool-cases (is_stored h (bucket d.headers h.nonce))) [
      | inl e ↦ rw (p, e) m
      | inr e ↦
          let (entries, distinct) = bucket-entries h.nonce in
          rw (p, e)
            (record {
              distinct =
                  Distinct-insert h.nonce (bucket d.headers h.nonce ++ h ∷ []) d.headers m.distinct;
              buckets =
                  AllEntries-insert IsBucket h.nonce (bucket d.headers h.nonce ++ h ∷ []) d.headers
                    (IsBucket-snoc h (bucket d.headers h.nonce) entries distinct p e) m.buckets;
            })
    ]
  ]

module _ (d : ForkDetector) (m : IsHeaderMap d.headers) where
  pub remove_past_or_invalid_records-IsHeaderMap :
      IsHeaderMap (remove_past_or_invalid_records d).headers
  unfolding remove_past_or_invalid_records
  remove_past_or_invalid_records-IsHeaderMap =
      remove_invalid_received_headers-IsHeaderMap (remove_past_headers d)
        (remove_past_headers-IsHeaderMap d m)

  put_bucket-IsHeaderMap :
      (k : ℕ) (o : Option (List HeaderInfo))
      → ((w : List HeaderInfo) → o ≡ some w → IsBucket k w)
      → IsHeaderMap (put_bucket k o d.headers)
  unfolding put_bucket
  put_bucket-IsHeaderMap k none f = record {
    distinct = Distinct-delete k d.headers m.distinct;
    buckets = AllEntries-delete IsBucket k d.headers m.buckets;
  }
  put_bucket-IsHeaderMap k (some w) f = record {
    distinct = Distinct-insert k w d.headers m.distinct;
    buckets = AllEntries-insert IsBucket k w d.headers (f w refl) m.buckets;
  }

  pub remove_headers-IsHeaderMap : (k : ℕ) → IsHeaderMap (remove_headers k d).headers
  unfolding remove_headers notarized_only bucket non_empty delete keep
  remove_headers-IsHeaderMap k = elim (Option-cases (lookup k d.headers)) [
    | inl e ↦ rw (e, bucket) (put_bucket-IsHeaderMap k none (λ w x. cc))
    | inr (infos, e) ↦
        rw (e, bucket)
          (put_bucket-IsHeaderMap k (non_empty (notarized_only infos)) (λ w x.
            IsBucket-keep (λ h. state_eq h.state notarized) k infos w
              (AllEntries-lookup IsBucket k d.headers m.buckets e) x))
  ]
