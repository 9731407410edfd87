-- ===== src/Sync/ForkDetector/Contents.antt =====
-- What the operations on the map of headers do to each bucket.
use elrond_go.Prelude.{
  ℕ, ◌≡◌, refl, inl, inr, true, false, not, Option, none, some, List, [], ◌∷◌, ◌++◌, arith, ◌&&◌,
  leb, ◌==◌, if◌then◌else◌, Bool-cases, Option-cases,
}
use elrond_go.Prelude.Bytes.{bytes_eq_iff}
use elrond_go.Prelude.Maps.{
  keep, lookup, insert, update_each, updated, lookup-insert, lookup-delete, lookup-update_each,
}
use elrond_go.Sync.ForkDetector.Types.{proposed, state_eq, HeaderInfo, HeaderMap, ForkDetector}
use elrond_go.Sync.ForkDetector.Store.{
  bucket, non_empty, higher_entry, put_bucket, notarized_only, is_received_header_invalid,
  is_stored, remove_headers, append_header, reset_fork, last_checkpoint,
  set_last_proposed_block_nonce,
}
use elrond_go.Sync.ForkDetector.Invariant.{IsHeaderMap}

abbrev or_empty : Option (List HeaderInfo) → List HeaderInfo
or_empty none = []
or_empty (some infos) = infos

or_empty-non_empty : (infos : List HeaderInfo) → or_empty (non_empty infos) ≡ infos
unfolding non_empty
or_empty-non_empty [] = refl
or_empty-non_empty (h ∷ hs) = refl

bucket-or_empty : (m : HeaderMap) (k : ℕ) → bucket m k ≡ or_empty (lookup k m)
unfolding bucket
bucket-or_empty m k = ground (arith, Option-cases (lookup k m))

bucket-put_bucket :
    (n k : ℕ) (infos : List HeaderInfo) (m : HeaderMap)
    → bucket (put_bucket n (non_empty infos) m) k ≡ (if n == k then infos else bucket m k)
unfolding bucket non_empty put_bucket
bucket-put_bucket n k [] m = rw (lookup-delete k n m, bucket) (ground arith)
bucket-put_bucket n k (h ∷ hs) m = rw (lookup-insert k n (h ∷ hs) m, bucket) (ground arith)

bucket-update_each :
    (f : ℕ → List HeaderInfo → Option (List HeaderInfo)) (m : HeaderMap) (k : ℕ)
    → IsHeaderMap m
    → bucket (update_each f m) k ≡ or_empty (updated f k (lookup k m))
bucket-update_each f m k h =
    rw (bucket-or_empty (update_each f m) k, lookup-update_each f k m h.distinct)

-- After RemoveHeaders only the notarized headers of that nonce are left, and every other nonce has
-- the headers that it had.
pub bucket-remove_headers :
    (n k : ℕ) (d : ForkDetector)
    → bucket (remove_headers n d).headers k
      ≡ (if n == k then notarized_only (bucket d.headers n) else bucket d.headers k)
unfolding remove_headers
bucket-remove_headers n k d = bucket-put_bucket n k (notarized_only (bucket d.headers n)) d.headers

-- ResetFork clears the forced fork, keeps the headers up to the last checkpoint, and of the later
-- ones the notarized.
pub reset_fork_lem :
    (d : ForkDetector) (k : ℕ)
    → IsHeaderMap d.headers
    → ((reset_fork d).should_force_fork ≡ false)
      × (bucket (reset_fork d).headers k ≡ (
          if leb k (last_checkpoint d).nonce
          then bucket d.headers k
          else notarized_only (bucket d.headers k)))
unfolding reset_fork
reset_fork_lem d k m = (
  refl,
  rw (bucket-update_each (higher_entry (last_checkpoint d).nonce) d.headers k m)
      (rw (bucket-or_empty d.headers k) (entry (lookup k d.headers))),
)
  where
    entry :
        (o : Option (List HeaderInfo))
        → or_empty (updated (higher_entry (last_checkpoint d).nonce) k o)
          ≡ (if leb k (last_checkpoint d).nonce then or_empty o else notarized_only (or_empty o))
    entry none = unfold notarized_only keep in ground arith
    entry (some infos) =
        unfold higher_entry in ground (arith, or_empty-non_empty (notarized_only infos))

abbrev pub valid_only : ForkDetector → List HeaderInfo → List HeaderInfo
valid_only d = keep (λ h. not (is_received_header_invalid d.final_checkpoint h))

-- A header joins the end of its nonce's bucket unless it is a proposal or its hash and state are
-- there; no other bucket changes.
pub bucket-append_header :
    (h : HeaderInfo) (d : ForkDetector) (k : ℕ)
    → bucket (append_header h d).headers k ≡ (
        if (h.nonce == k)
          && not (state_eq h.state proposed)
          && not (is_stored h (bucket d.headers h.nonce))
        then bucket d.headers h.nonce ++ h ∷ []
        else bucket d.headers k)
unfolding append_header set_last_proposed_block_nonce
bucket-append_header h d k = elim (Bool-cases (state_eq h.state proposed)) [
  | inl p ↦ rw p (ground arith)
  | inr p ↦ elim (Bool-cases (is_stored h (bucket d.headers h.nonce))) [
    | inl e ↦ rw (p, e) (ground arith)
    | inr e ↦
        rw (p, e)
          (rw
            (
              bucket-or_empty (insert h.nonce (bucket d.headers h.nonce ++ h ∷ []) d.headers) k,
              lookup-insert k h.nonce (bucket d.headers h.nonce ++ h ∷ []) d.headers,
            )
            (ground (arith, bucket-or_empty d.headers k)))
  ]
]

is_stored-snoc_self :
    (h : HeaderInfo) (infos : List HeaderInfo) → is_stored h (infos ++ h ∷ []) ≡ true
unfolding is_stored state_eq
is_stored-snoc_self h [] = ground (arith, bytes_eq_iff h.hash h.hash)
is_stored-snoc_self h (x ∷ xs) = ground (arith, is_stored-snoc_self h xs)

append_header_stored :
    (h : HeaderInfo) (d : ForkDetector)
    → state_eq h.state proposed ≡ false
    → is_stored h (bucket d.headers h.nonce) ≡ true
    → append_header h d ≡ d
unfolding append_header
append_header_stored h d p e = rw (p, e) refl

is_stored-append_header :
    (h : HeaderInfo) (d : ForkDetector)
    → state_eq h.state proposed ≡ false
    → is_stored h (bucket (append_header h d).headers h.nonce) ≡ true
is_stored-append_header h d p = rw (bucket-append_header h d h.nonce) (
    rw p (elim (Bool-cases (is_stored h (bucket d.headers h.nonce))) [
      | inl e ↦ rw e (ground arith)
      | inr e ↦ rw e (ground (arith, is_stored-snoc_self h (bucket d.headers h.nonce)))
    ]))

-- To add the same header a second time changes nothing.
pub append_header-append_header :
    (h : HeaderInfo) (d : ForkDetector) → append_header h (append_header h d) ≡ append_header h d
append_header-append_header h d = elim (Bool-cases (state_eq h.state proposed)) [
  | inl p ↦ unfold append_header set_last_proposed_block_nonce in rw p refl
  | inr p ↦ append_header_stored h (append_header h d) p (is_stored-append_header h d p)
]
