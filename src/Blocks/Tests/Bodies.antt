-- ===== src/Blocks/Tests/Bodies.antt =====
-- A body of two mini-blocks, the processed mini-blocks, and requested meta blocks.
use elrond_go.Prelude.{◌≡◌, refl, sym, ◌∙◌, false, none, List, [], ◌∷◌, arith, ◌↔◌, length, cons-eq}
use elrond_go.Prelude.Bytes.{Bytes, bytes_eq}
use elrond_go.Prelude.Maps.{All}
use elrond_go.Prelude.Keyed.{is_in}
use elrond_go.Blocks.Types.{ok, ok-eq, MiniBlock, MiniBlockHeader, calculate_hash, mini_block_hash}
use elrond_go.Blocks.Correlation.{
  header_of, add_header, create_mini_block_headers, check_header_body_correlation, Matched,
  check_header_body_correlation-Matched,
}
use elrond_go.Blocks.Matching.{check_header_body_correlation-create_mini_block_headers}
use elrond_go.Blocks.Processed.{is_mini_block_processed}
use elrond_go.Blocks.Pairs.{Op, add, remove, remove_all, replace_by, run, pairs_run, run-Pairs}
use elrond_go.Blocks.Current.{HdrForBlock, Shard, create_block_started, request_meta_headers}
use elrond_go.Blocks.Arrivals.{wait_for_meta_hdr_hashes}
use elrond_go.Blocks.Missing.{Waited}
use elrond_go.Blocks.Requested.{NoRepeats, wait_for_meta_hdr_hashes-request_meta_headers}
use elrond_go.Blocks.Tests.{one_by_one, bytes_of_list, codec, meta_at, notarized}

one_by_one-eq : (a b r s : Bytes) → one_by_one a r ≡ one_by_one b s → (a ≡ b) × (r ≡ s)
one_by_one-eq [] [] r s e = (refl, (cons-eq e).1)
one_by_one-eq [] (y ∷ ys) r s e = let z : 0 ≡ 1 = (cons-eq e).0 in ground (arith, z)
one_by_one-eq (x ∷ xs) [] r s e = let z : 1 ≡ 0 = (cons-eq e).0 in ground (arith, z)
one_by_one-eq (x ∷ xs) (y ∷ ys) r s e =
    let t = cons-eq (cons-eq e).1 in
    let p = one_by_one-eq xs ys r s t.1 in (rw (t.0, p.0) refl, p.1)

bytes_of_list-eq : (a b : List Bytes) (r s : Bytes) → bytes_of_list a r ≡ bytes_of_list b s → a ≡ b
bytes_of_list-eq [] [] r s e = refl
bytes_of_list-eq [] (y ∷ ys) r s e = let z : 0 ≡ 1 = (cons-eq e).0 in ground (arith, z)
bytes_of_list-eq (x ∷ xs) [] r s e = let z : 1 ≡ 0 = (cons-eq e).0 in ground (arith, z)
bytes_of_list-eq (x ∷ xs) (y ∷ ys) r s e =
    let p = one_by_one-eq x y (bytes_of_list xs r) (bytes_of_list ys s) (cons-eq e).1 in
    rw (p.0, bytes_of_list-eq xs ys r s p.1) refl

codec_tells_apart :
    (a b : MiniBlock) (x : Bytes)
    → mini_block_hash codec a ≡ ok x
    → mini_block_hash codec b ≡ ok x
    → a ≡ b
unfolding mini_block_hash calculate_hash
codec_tells_apart a b x h k =
    let e = cons-eq (ok-eq h ∙ sym (ok-eq k)) in
    let f = cons-eq e.1 in
    let g = cons-eq f.1 in
    let l = bytes_of_list-eq a.tx_hashes b.tx_hashes [] [] g.1 in rw (e.0, f.0, g.0, l) refl

abbrev body : List MiniBlock
body =
    record {
      tx_hashes = (5 ∷ []) ∷ (6 ∷ []) ∷ [];
      receiver_shard_id = 1;
      sender_shard_id = 0;
      kind = 0;
    }
    ∷ record { tx_hashes = (8 ∷ 9 ∷ []) ∷ []; receiver_shard_id = 0; sender_shard_id = 1; kind = 0 }
    ∷ []

abbrev headers : List MiniBlockHeader
headers =
    record {
      hash = 1 ∷ 0 ∷ 0 ∷ bytes_of_list ((5 ∷ []) ∷ (6 ∷ []) ∷ []) [];
      sender_shard_id = 0;
      receiver_shard_id = 1;
      tx_count = 2;
      kind = 0;
    }
    ∷ record {
      hash = 0 ∷ 1 ∷ 0 ∷ bytes_of_list ((8 ∷ 9 ∷ []) ∷ []) [];
      sender_shard_id = 1;
      receiver_shard_id = 0;
      tx_count = 1;
      kind = 0;
    }
    ∷ []

body-headers : create_mini_block_headers codec body ≡ ok (3, headers)
unfolding create_mini_block_headers add_header header_of mini_block_hash calculate_hash
body-headers = refl

check_header_body_correlation-create_mini_block_headers_example :
    check_header_body_correlation codec headers body ≡ none
check_header_body_correlation-create_mini_block_headers_example =
    check_header_body_correlation-create_mini_block_headers codec codec_tells_apart body 3 headers
      body-headers

check_header_body_correlation-Matched_example :
    (check_header_body_correlation codec headers body ≡ none)
    ↔ ((length headers ≡ length body) × All (Matched codec headers) body)
check_header_body_correlation-Matched_example =
    check_header_body_correlation-Matched codec headers body

abbrev operations : List Op
operations =
    add (1 ∷ []) (2 ∷ [])
    ∷ add (1 ∷ []) (3 ∷ [])
    ∷ add (4 ∷ []) (2 ∷ [])
    ∷ remove (2 ∷ [])
    ∷ replace_by ((4 ∷ [], (7 ∷ []) ∷ []) ∷ [])
    ∷ remove_all (9 ∷ [])
    ∷ []

run-Pairs_example :
    is_mini_block_processed (1 ∷ []) (3 ∷ []) (run operations [])
    ≡ pairs_run operations (λ _ _. false) (1 ∷ []) (3 ∷ [])
run-Pairs_example = run-Pairs operations (1 ∷ []) (3 ∷ [])

abbrev no_headers : HdrForBlock
no_headers = record {
  missing_hdrs = 3;
  missing_finality_attesting_hdrs = 1;
  highest_hdr_nonce = [];
  hdr_hash_and_info = [];
}

abbrev asked : List Bytes
asked = (5 ∷ []) ∷ (6 ∷ []) ∷ []

asked-NoRepeats : NoRepeats asked
unfolding is_in bytes_eq
asked-NoRepeats = (refl, (refl, tt))

-- one of the two meta blocks is in the pool, the other one and its successor arrive
abbrev waiting : Shard
waiting = record {
  current =
      request_meta_headers (record { meta_blocks = (5 ∷ [], meta_at 5) ∷ []; headers_nonces = [] })
        1 asked (create_block_started no_headers);
  pool = record { meta_blocks = (5 ∷ [], meta_at 5) ∷ []; headers_nonces = [] };
  last_hdrs = [];
  notarized_hdrs = notarized;
  processed_mini_blocks = [];
}

wait_for_meta_hdr_hashes-request_meta_headers_example :
    Waited 2 100 1
      (wait_for_meta_hdr_hashes 2 100 1 ((6 ∷ [], meta_at 6) ∷ (7 ∷ [], meta_at 7) ∷ []) waiting)
wait_for_meta_hdr_hashes-request_meta_headers_example =
    wait_for_meta_hdr_hashes-request_meta_headers 2 100 1
      ((6 ∷ [], meta_at 6) ∷ (7 ∷ [], meta_at 7) ∷ []) asked no_headers waiting asked-NoRepeats
      (omega arith) refl
