-- ===== src/Blocks/Correlation.antt =====
-- baseProcess.go: createMiniBlockHeaders and checkHeaderBodyCorrelation.
use elrond_go.Prelude.{
  ℕ, ◌≡◌, refl, ◌+◌, ◌%◌, ◌^◌, inl, inr, not, Option, none, some, List, [], ◌∷◌, arith, ◌==◌,
  ==_iff, if◌then◌else◌, Bool-cases, Option-cases, ◌↔◌, length,
}
use elrond_go.Prelude.Bytes.{Bytes, bytes_eq}
use elrond_go.Prelude.Maps.{All}
use elrond_go.Blocks.Types.{
  Error, err_header_body_mismatch, Result, ok, err, MiniBlock, MiniBlockHeader, or_else,
  or_else-none, or_else_both, Codec, mini_block_hash,
}

unfoldable pub header_of : Bytes → MiniBlock → MiniBlockHeader
header_of hash mb = record {
  hash = hash;
  sender_shard_id = mb.sender_shard_id;
  receiver_shard_id = mb.receiver_shard_id;
  tx_count = length mb.tx_hashes % 2 ^ 32;
  kind = mb.kind;
}

-- one mini-block in front of what the loop makes of the others
unfoldable pub add_header :
    Result Bytes → MiniBlock → Result (ℕ × List MiniBlockHeader) → Result (ℕ × List MiniBlockHeader)
add_header (err e) mb rest = err e
add_header (ok hash) mb (err e) = err e
add_header (ok hash) mb (ok (total, hs)) = ok (length mb.tx_hashes + total, header_of hash mb ∷ hs)

-- the number of the transactions, and the headers
unfoldable pub create_mini_block_headers :
    Codec → List MiniBlock → Result (ℕ × List MiniBlockHeader)
create_mini_block_headers c [] = ok (0, [])
create_mini_block_headers c (mb ∷ body) =
    add_header (mini_block_hash c mb) mb (create_mini_block_headers c body)

-- mbHashesFromHdr: the map keeps the last header with a hash
unfoldable pub mb_hashes_from_hdr : List MiniBlockHeader → Bytes → Option MiniBlockHeader
mb_hashes_from_hdr [] hash = none
mb_hashes_from_hdr (h ∷ hs) hash =
    let later = mb_hashes_from_hdr hs hash in
    elim later [ some l ↦ some l | none ↦ (if bytes_eq h.hash hash then some h else none) ]

unfoldable pub check_fields : Option MiniBlockHeader → MiniBlock → Option Error
check_fields none mb = some err_header_body_mismatch
check_fields (some h) mb =
    if not (h.tx_count == length mb.tx_hashes % 2 ^ 32)
    then some err_header_body_mismatch
    else if not (h.receiver_shard_id == mb.receiver_shard_id)
    then some err_header_body_mismatch
    else if not (h.sender_shard_id == mb.sender_shard_id)
    then some err_header_body_mismatch
    else none

unfoldable pub check_hash : List MiniBlockHeader → Result Bytes → MiniBlock → Option Error
check_hash hs (err e) mb = some e
check_hash hs (ok hash) mb = check_fields (mb_hashes_from_hdr hs hash) mb

module _ (c : Codec) (hs : List MiniBlockHeader) where
  unfoldable pub check_mini_blocks : List MiniBlock → Option Error
  check_mini_blocks [] = none
  check_mini_blocks (mb ∷ body) =
      let rest = check_mini_blocks body in or_else (check_hash hs (mini_block_hash c mb) mb) rest

  unfoldable pub check_header_body_correlation : List MiniBlock → Option Error
  check_header_body_correlation body =
      if length hs == length body then check_mini_blocks body else some err_header_body_mismatch

  -- The last header with the hash of a mini-block has its shards and the number of its transactions.
  pub record Matched (mb : MiniBlock) : Type 0 where
    pub hash : Bytes
    pub header : MiniBlockHeader
    pub hashed : mini_block_hash c mb ≡ ok hash
    pub found : mb_hashes_from_hdr hs hash ≡ some header
    pub counted : header.tx_count ≡ length mb.tx_hashes % 2 ^ 32
    pub received : header.receiver_shard_id ≡ mb.receiver_shard_id
    pub sent : header.sender_shard_id ≡ mb.sender_shard_id

  check_hash-Matched :
      (mb : MiniBlock) (r : Result Bytes)
      → mini_block_hash c mb ≡ r
      → check_hash hs r mb ≡ none
      → Matched mb
  unfolding check_hash check_fields
  check_hash-Matched mb (err e) h k = cc
  check_hash-Matched mb (ok x) h k = elim (Option-cases (mb_hashes_from_hdr hs x)) [
    | inl e ↦ let q = rw e at k in cc
    | inr (y, e) ↦
        let q = rw e at k in
        record {
          hash = x;
          header = y;
          hashed = h;
          found = e;
          counted = ground arith;
          received = ground arith;
          sent = ground arith;
        }
  ]

  Matched-check_hash :
      (mb : MiniBlock) → Matched mb → check_hash hs (mini_block_hash c mb) mb ≡ none
  unfolding check_hash check_fields
  Matched-check_hash mb m =
      let a = (==_iff m.header.tx_count (length mb.tx_hashes % 2 ^ 32)).1 m.counted in
      let b = (==_iff m.header.receiver_shard_id mb.receiver_shard_id).1 m.received in
      let d = (==_iff m.header.sender_shard_id mb.sender_shard_id).1 m.sent in
      rw (m.hashed, m.found, a, b, d) refl

  check_mini_blocks-Matched :
      (body : List MiniBlock) → check_mini_blocks body ≡ none → All Matched body
  unfolding check_mini_blocks
  check_mini_blocks-Matched [] h = tt
  check_mini_blocks-Matched (mb ∷ body) h =
      let p = or_else-none (check_hash hs (mini_block_hash c mb) mb) (check_mini_blocks body) h in
      (check_hash-Matched mb (mini_block_hash c mb) refl p.0, check_mini_blocks-Matched body p.1)

  Matched-check_mini_blocks :
      (body : List MiniBlock) → All Matched body → check_mini_blocks body ≡ none
  unfolding check_mini_blocks
  Matched-check_mini_blocks [] h = refl
  Matched-check_mini_blocks (mb ∷ body) h =
      or_else_both (check_hash hs (mini_block_hash c mb) mb) (check_mini_blocks body)
        (Matched-check_hash mb h.0) (Matched-check_mini_blocks body h.1)

  -- checkHeaderBodyCorrelation says no error exactly where there are as many headers as mini-blocks
  -- and each mini-block has a hash, for which the last header with it has the mini-block's shards and
  -- the number of its transactions, to 32 bits.
  pub check_header_body_correlation-Matched :
      (body : List MiniBlock)
      → (check_header_body_correlation body ≡ none) ↔ ((length hs ≡ length body) × All Matched body)
  unfolding check_header_body_correlation
  check_header_body_correlation-Matched body = elim (Bool-cases (length hs == length body)) [
    | inl t ↦ rw t (
      λ h. ((==_iff (length hs) (length body)).0 t, check_mini_blocks-Matched body h),
      λ p. Matched-check_mini_blocks body p.1,
    )
    | inr t ↦ rw t (λ h. cc, λ p. let q = (==_iff (length hs) (length body)).1 p.0 in cc)
  ]
