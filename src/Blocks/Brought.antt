-- ===== src/Blocks/Brought.antt =====
-- The mini-blocks that a meta block brings: a meta block is finished with transactions.
use elrond_go.Prelude.{
  ℕ, ◌≡◌, suc, ◌+◌, ◌%◌, ◌^◌, ◌≤◌, ◌<◌, inl, inr, Bool, true, false, Option, none, some, List, [],
  ◌∷◌, arith, ltb, if◌then◌else◌, Bool-cases, length,
}
use elrond_go.Prelude.Bytes.{Bytes}
use elrond_go.Prelude.Keyed.{is_in}
use elrond_go.Accounts.Types.{AccountsDb, Storage}
use elrond_go.Blocks.Types.{Error, MiniBlock, Header, get_mini_block_headers_with_dst}
use elrond_go.Blocks.Create.{Created}
use elrond_go.Blocks.Incoming.{
  Preprocessors, Incoming, keys, count_processed, add_mini_block, with_other, unfinished, at_end,
  add_complete, take_requested, take_mini_block, take_hash, take_hashes,
  create_mbs_and_process_cross_shard_transactions_dst_me,
}

-- how many of the hashes are processed already
unfoldable pub count_in : List Bytes → List Bytes → ℕ
count_in processed [] = 0
count_in processed (k ∷ ks) =
    let rest = count_in processed ks in if is_in k processed then suc rest else rest

-- a mini-block of the pool has a transaction, and fewer than 2 ^ 31 of them
abbrev pub Filled : Option MiniBlock → Type 0
Filled none = Unit
Filled (some mb) = (0 < length mb.tx_hashes) × (length mb.tx_hashes < 2 ^ 31)

module _ {R : Type 0} (s : Storage) (p : Preprocessors R) (round max_txs max_mbs : ℕ)
    (bound : max_txs < 2 ^ 31) where
  -- as long as no transaction is added, only processed mini-blocks are counted
  IsCounted : ℕ → Incoming R → Type 0
  IsCounted d i = (i.tx_added ≤ max_txs) × (i.tx_added ≡ 0 → i.mini_blocks_processed ≤ d)

  add_complete-IsCounted :
      (mb : MiniBlock) (i : Incoming R) (d : ℕ) (r : (AccountsDb × R) × Option Error)
      → Filled (some mb)
      → ltb max_txs ((i.tx_added + length mb.tx_hashes) % 2 ^ 32) ≡ false
      → IsCounted d i
      → IsCounted d (add_complete s p round max_txs max_mbs mb i r).0
  unfolding add_complete with_other add_mini_block IsCounted
  add_complete-IsCounted mb i d (w, some e) f b c = c
  add_complete-IsCounted mb i d (w, none) f b c =
      let l = c.0 in let g = f.0 in let h = f.1 in (ground arith, λ z. ground arith)

  take_requested-IsCounted :
      (mb : MiniBlock) (i : Incoming R) (d : ℕ) (db : AccountsDb) (r : ℕ × R)
      → Filled (some mb)
      → ltb max_txs ((i.tx_added + length mb.tx_hashes) % 2 ^ 32) ≡ false
      → IsCounted d i
      → IsCounted d (take_requested s p round max_txs max_mbs mb i db r).0
  unfolding take_requested with_other IsCounted
  take_requested-IsCounted mb i d db (n, r) f b c = elim (Bool-cases (ltb 0 n)) [
    | inl t ↦ rw t c
    | inr t ↦ rw t (add_complete-IsCounted mb i d _ f b c)
  ]

  take_mini_block-IsCounted :
      (o : Option MiniBlock) (i : Incoming R) (d : ℕ)
      → Filled o
      → IsCounted d i
      → IsCounted d (take_mini_block s p round max_txs max_mbs o i).0
  unfolding take_mini_block
  take_mini_block-IsCounted none i d f c = c
  take_mini_block-IsCounted (some mb) i d f c = elim (Bool-cases (p.has_preprocessor mb.kind)) [
    | inr t ↦ rw t c
    | inl t ↦ elim (Bool-cases (ltb max_txs ((i.tx_added + length mb.tx_hashes) % 2 ^ 32))) [
      | inl u ↦ rw (t, u) c
      | inr u ↦ rw (t, u) (take_requested-IsCounted mb i d _ _ f u c)
    ]
  ]

  module _ (filled : (k : Bytes) → Filled (p.mini_block_in_pool k)) (processed : List Bytes)
      (has_time : ℕ → Bool) (total : ℕ) where
    -- finished without a transaction only if all the hashes are processed
    AllProcessed : ℕ → Created × (AccountsDb × R) → Type 0
    AllProcessed d r = r.0.is_finished ≡ true → r.0.txs ≡ 0 → total ≤ d

    AllProcessed-grow :
        (d e : ℕ) (r : Created × (AccountsDb × R)) → d ≤ e → AllProcessed d r → AllProcessed e r
    unfolding AllProcessed
    AllProcessed-grow d e r l a f z = let q = a f z in omega arith

    at_end-AllProcessed : (d : ℕ) (i : Incoming R) → IsCounted d i → AllProcessed d (at_end total i)
    unfolding AllProcessed at_end IsCounted
    at_end-AllProcessed d i c f z = let q = c.1 z in ground arith

    unfinished-AllProcessed : (d : ℕ) (i : Incoming R) → AllProcessed d (unfinished i)
    unfolding AllProcessed unfinished
    unfinished-AllProcessed d i f z = let q : true ≡ false = cc in cc

    take_hash-IsCounted :
        (k : Bytes) (i : Incoming R) (d : ℕ)
        → IsCounted d i
        → IsCounted
            (count_in processed (k ∷ []) + d)
            (take_hash s p round max_txs max_mbs processed k i).0
    unfolding take_hash count_in count_processed IsCounted
    take_hash-IsCounted k i d c = elim (Bool-cases (is_in k processed)) [
      | inl t ↦ rw t (c.0, λ z. let q = c.1 z in omega arith)
      | inr t ↦
          let v = take_mini_block-IsCounted (p.mini_block_in_pool k) i d (filled k) c in
          rw t (v.0, λ z. let q = v.1 z in omega arith)
    ]

    count_in_first :
        (k : Bytes) (ks : List Bytes)
        → count_in processed ks + count_in processed (k ∷ []) ≡ count_in processed (k ∷ ks)
    unfolding count_in
    count_in_first k ks = ground arith

    take_hashes-AllProcessed :
        (ks : List Bytes) (i : Incoming R) (d : ℕ)
        → IsCounted d i
        → AllProcessed
            (count_in processed ks + d)
            (take_hashes s p round max_txs max_mbs has_time processed total ks i)
    unfolding take_hashes
    take_hashes-AllProcessed [] i d c =
        AllProcessed-grow d _ _ (omega arith) (at_end-AllProcessed d i c)
    take_hashes-AllProcessed (k ∷ ks) i d c = elim (Bool-cases (has_time (length ks))) [
      | inr t ↦ rw t (AllProcessed-grow d _ _ (omega arith) (at_end-AllProcessed d i c))
      | inl t ↦
          let r = take_hash s p round max_txs max_mbs processed k i in
          elim (Bool-cases r.1) [
            | inl u ↦ rw (t, u) (unfinished-AllProcessed _ r.0)
            | inr u ↦
                let e = count_in_first k ks in
                rw (t, u)
                  (AllProcessed-grow (count_in processed ks + (count_in processed (k ∷ []) + d)) _ _
                    (omega (arith, e))
                    (take_hashes-AllProcessed ks r.0 (count_in processed (k ∷ []) + d)
                      (take_hash-IsCounted k i d c)))
          ]
    ]

-- a meta block of which not all mini-blocks are processed is finished with a transaction
pub create_mbs-brings :
    {R : Type 0}
    → (s : Storage) (p : Preprocessors R) (round self_id : ℕ) (has_time : ℕ → Bool) (h : Header)
      (processed : List Bytes) (max_txs max_mbs : ℕ) (w : AccountsDb × R)
    → max_txs < 2 ^ 31
    → ((k : Bytes) → Filled (p.mini_block_in_pool k))
    → count_in processed (keys (get_mini_block_headers_with_dst self_id h.content))
      < length (keys (get_mini_block_headers_with_dst self_id h.content))
    → (create_mbs_and_process_cross_shard_transactions_dst_me s p round self_id has_time h processed
        max_txs max_mbs w).0.is_finished
      ≡ true
    → ltb 0
        (create_mbs_and_process_cross_shard_transactions_dst_me s p round self_id has_time h
          processed max_txs max_mbs w).0.txs
      ≡ true
unfolding create_mbs_and_process_cross_shard_transactions_dst_me AllProcessed IsCounted
create_mbs-brings s p round self_id has_time h processed max_txs max_mbs w b filled l f =
    let ks = keys (get_mini_block_headers_with_dst self_id h.content) in
    let i : Incoming _ = record {
      mini_blocks = [];
      tx_added = 0;
      mini_blocks_processed = 0;
      other = w;
    } in
    let a =
      take_hashes-AllProcessed s p round max_txs max_mbs b filled processed has_time (length ks) ks
        i 0 (omega arith, λ z. omega arith) f in
    elim (Bool-cases
      (ltb 0 (take_hashes s p round max_txs max_mbs has_time processed (length ks) ks i).0.txs)) [
        | inl t ↦ t
        | inr t ↦
            let q : length ks ≤ count_in processed ks + 0 = a (ground arith) in ground (arith, q, l)
      ]
