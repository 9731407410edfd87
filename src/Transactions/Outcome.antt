-- ===== src/Transactions/Outcome.antt =====
-- ProcessTransaction as a whole, for a stored sender of the node's shard.
use elrond_go.Prelude.{
  ℕ, ◌+◌, ◌*◌, ◌%◌, ◌≤◌, ◌≡◌, refl, ap, true, false, none, some, arith, if◌then◌else◌,
}
use elrond_go.Prelude.Bytes.{Bytes, bytes_eq}
use elrond_go.Prelude.Int.{pos, ◌+ℤ◌, ◌-ℤ◌, ◌≤ℤ◌, ltb_ℤ, int_laws, two64}
use elrond_go.Accounts.Types.{Account, AccountsDb, done, and_then, Storage, account_at}
use elrond_go.Accounts.Store.{allocate}
use elrond_go.Accounts.Changes.{IsSound, object_at-hit, self_eq}
use elrond_go.Transactions.Economics.{
  Transaction, EconomicsData, compute_fee, compute_gas_limit, check_validity_tx_values,
}
use elrond_go.Transactions.Process.{
  Coordinator, Handlers, move_balance, check_tx_values, check_then, in_shard, process_transaction,
  with_addresses, checked, by_type,
}
use elrond_go.Transactions.MoveBalance.{fetch_lem, process_move_balance_lem}
use elrond_go.Transactions.Checks.{fee-covered}

-- in numbers: the fee and the value are covered
afford :
    (f v n : ℕ)
    → pos f +ℤ pos v ≤ℤ pos n
    → (ltb_ℤ (pos n) (pos f) ≡ false) × (pos 0 ≤ℤ pos n -ℤ pos f -ℤ pos v)
afford f v n h =
    let le : f + v ≤ n = omega (int_laws, h) in (ground (arith, le), omega (int_laws, le))

module _ (s : Storage) (sound : IsSound s) (c : Coordinator) (h : Handlers) (ed : EconomicsData)
    (tx : Transaction) (round : ℕ) (src dst : Bytes)
    (from : h.create_address tx.snd_addr ≡ done src) (to : h.create_address tx.rcv_addr ≡ done dst)
    (a : Account) (db : AccountsDb) (src_here : in_shard s c src ≡ true)
    (sender : db.accounts src ≡ some a) where
  abbrev loaded : AccountsDb
  loaded = allocate src a db

  loaded_account : account_at db.next loaded ≡ a
  loaded_account =
      unfold account_at allocate in
      ap (λ o. o.account)
        (object_at-hit db.next db.next (record { address = src; account = a }) db.objects
          (self_eq db.next))

  reach :
      process_transaction s c h ed (some tx) round db
      ≡ check_then (check_tx_values tx (some a)) loaded (
          and_then
            (loaded, h.compute_transaction_type tx)
            (λ t d. by_type s c h ed t tx src dst round d))
  unfolding process_transaction with_addresses checked and_then
  reach = rw (from, to, fetch_lem s sound c src a db sender src_here, loaded_account) refl

  -- ProcessTransaction of a transfer to another stored account of the shard that both checks take,
  -- where the value and the sender's balance are not negative and the storage does not fail, has no
  -- error; it takes the fee and the value from the sender, whose balance does not become negative,
  -- counts up its nonce, gives the value to the receiver, and leaves every other account as it is.
  pub process_transaction_lem :
      (b : Account) (v n : ℕ)
      → bytes_eq src dst ≡ false
      → in_shard s c dst ≡ true
      → db.accounts dst ≡ some b
      → h.compute_transaction_type tx ≡ done move_balance
      → check_tx_values tx (some a) ≡ none
      → check_validity_tx_values ed tx ≡ none
      → tx.value ≡ pos v
      → a.balance ≡ pos n
      → ((process_transaction s c h ed (some tx) round db).1 ≡ done tt)
        × ((j : Bytes)
            → (process_transaction s c h ed (some tx) round db).0.accounts j ≡ (
                if bytes_eq j src
                then some (record a {
                  nonce = (a.nonce + 1) % two64;
                  balance = a.balance -ℤ compute_fee ed tx -ℤ tx.value;
                })
                else if bytes_eq j dst
                then some (record b { balance = b.balance +ℤ tx.value })
                else db.accounts j))
        × (pos 0 ≤ℤ a.balance -ℤ compute_fee ed tx -ℤ tx.value)
  process_transaction_lem b v n apart dst_here receiver kind taken valid hv hn =
      let covered : pos (tx.gas_price * compute_gas_limit ed tx) +ℤ pos v ≤ℤ pos n =
        unfold compute_fee in rw (hv, hn) at (fee-covered ed tx a v n hv hn taken valid) in
      let can = afford (tx.gas_price * compute_gas_limit ed tx) v n covered in
      let funded : ltb_ℤ a.balance (compute_fee ed tx) ≡ false =
        unfold compute_fee in rw hn can.0 in
      let m =
        process_move_balance_lem s sound c src dst a b loaded apart src_here dst_here
          (unfold allocate in sender) (unfold allocate in receiver) h ed tx valid funded in
      rw (reach, taken, kind)
        (unfold check_then and_then by_type allocate in
          (m.0, m.1, (unfold compute_fee in rw (hv, hn) can.1)))
