-- ===== src/Sync/ForkDetector/Highest.antt =====
-- computeProbableHighestNonce, and the field that AddHeader sets from it.
use elrond_go.Prelude.{
  ℕ, ◌≤◌, ◌≡◌, ◌⊎◌, refl, inl, Bool, true, Option, none, some, List, [], ◌∷◌, arith, leb,
  if◌then◌else◌,
}
use elrond_go.Prelude.Bytes.{Bytes}
use elrond_go.Prelude.Maps.{has_key}
use elrond_go.Sync.ForkDetector.Types.{
  BlockHeaderState, Header, HeaderMap, ForkDetector, Rounder, BlackListHandler, Err,
}
use elrond_go.Sync.ForkDetector.Store.{max_nonce, compute_probable_highest_nonce}
use elrond_go.Sync.ForkDetector.Validity.{check_block_basic_validity}
use elrond_go.Sync.ForkDetector.AddHeader.{
  store_header, accept_shard, accept_meta, after_check, add_header_shard, add_header_meta,
}
use elrond_go.Sync.ForkDetector.Steps.{Chain, shard, meta, add_header_of}

-- `n` is the largest of `base` and the nonces that have a bucket
pub record IsHighest (base : ℕ) (m : HeaderMap) (n : ℕ) : Type 0 where
  pub above_base : base ≤ n
  pub above_keys : (k : ℕ) → has_key k m ≡ true → k ≤ n
  pub attained : (n ≡ base) ⊎ (has_key n m ≡ true)

max_nonce-le : (best : ℕ) (m : HeaderMap) → best ≤ max_nonce best m
unfolding max_nonce
max_nonce-le best [] = omega arith
max_nonce-le best ((nonce, infos) ∷ m) =
    ground (arith, max_nonce-le (if leb nonce best then best else nonce) m)

max_nonce-keys : (best k : ℕ) (m : HeaderMap) → has_key k m ≡ true → k ≤ max_nonce best m
unfolding max_nonce has_key
max_nonce-keys best k [] h = cc
max_nonce-keys best k ((nonce, infos) ∷ m) h =
    let best' = if leb nonce best then best else nonce in
    ground (arith, max_nonce-le best' m, max_nonce-keys best' k m)

max_nonce-attained :
    (best : ℕ) (m : HeaderMap) → (max_nonce best m ≡ best) ⊎ (has_key (max_nonce best m) m ≡ true)
unfolding max_nonce has_key
max_nonce-attained best [] = inl refl
max_nonce-attained best ((nonce, infos) ∷ m) =
    let best' = if leb nonce best then best else nonce in ground (arith, max_nonce-attained best' m)

-- computeProbableHighestNonce gives the largest of the final checkpoint's nonce and the nonces under
-- which headers are stored, in whatever order the map is walked.
pub compute_probable_highest_nonce-IsHighest :
    (d : ForkDetector)
    → IsHighest d.final_checkpoint.nonce d.headers (compute_probable_highest_nonce d)
unfolding compute_probable_highest_nonce
compute_probable_highest_nonce-IsHighest d = record {
  above_base = max_nonce-le d.final_checkpoint.nonce d.headers;
  above_keys = λ k h. max_nonce-keys d.final_checkpoint.nonce k d.headers h;
  attained = max_nonce-attained d.final_checkpoint.nonce d.headers;
}

abbrev pub IsUpToDate : ForkDetector → Type 0
IsUpToDate d = IsHighest d.final_checkpoint.nonce d.headers d.probable_highest_nonce

store_header-IsUpToDate :
    (r : Rounder) (h : Header) (hash : Bytes) (state : BlockHeaderState) (d : ForkDetector)
    → IsUpToDate (store_header r h hash state d)
unfolding store_header
store_header-IsUpToDate r h hash state d = compute_probable_highest_nonce-IsHighest _

module _ {B : Type 0} (handler : BlackListHandler B) where
  after_check-IsUpToDate :
      (accept : ForkDetector → ForkDetector) (d : ForkDetector) (checked : Option Err × B)
      → IsUpToDate (accept d)
      → (after_check accept d checked).0 ≡ none
      → IsUpToDate (after_check accept d checked).1
  after_check-IsUpToDate accept d (none, b) u e = u
  after_check-IsUpToDate accept d (some x, b) u e = cc

  -- After AddHeader has accepted a header, the probable highest nonce is the largest of the final
  -- checkpoint's nonce and the nonces under which headers are stored.
  pub add_header_of-IsUpToDate :
      (chain : Chain) (r : Rounder) (h : Option Header) (hash : Option Bytes)
      (state : BlockHeaderState) (fs : List (Header × Bytes)) (stuck : Bool) (d : ForkDetector)
      (b : B)
      → (add_header_of handler chain r h hash state fs stuck d b).0 ≡ none
      → IsUpToDate (add_header_of handler chain r h hash state fs stuck d b).1
  unfolding add_header_of add_header_shard add_header_meta
  add_header_of-IsUpToDate shard r none hash state fs stuck d b e = cc
  add_header_of-IsUpToDate shard r (some h) none state fs stuck d b e = cc
  add_header_of-IsUpToDate shard r (some h) (some hash) state fs stuck d b e =
      after_check-IsUpToDate (accept_shard r h hash state fs stuck) d
        (check_block_basic_validity handler r d h hash state b)
        (unfold accept_shard in store_header-IsUpToDate r h hash _ _) e
  add_header_of-IsUpToDate meta r none hash state fs stuck d b e = cc
  add_header_of-IsUpToDate meta r (some h) none state fs stuck d b e = cc
  add_header_of-IsUpToDate meta r (some h) (some hash) state fs stuck d b e =
      after_check-IsUpToDate (accept_meta r h hash state stuck) d
        (check_block_basic_validity handler r d h hash state b)
        (unfold accept_meta in store_header-IsUpToDate r h hash _ _) e
