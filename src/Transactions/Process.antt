-- ===== src/Transactions/Process.antt =====
-- baseProcess.go, shardProcess.go, metaProcess.go and rewardTransaction/process.go. An account that
-- the node does not hold is `none`; of an account that it holds, the number of its object. All
-- accounts of this store are of the type state.Account.
use elrond_go.Prelude.{ℕ, ◌+◌, ◌*◌, ◌%◌, Bool, Option, none, some, ◌∷◌, ltb, ◌==◌, if◌then◌else◌}
use elrond_go.Prelude.Bytes.{Bytes, bytes_eq}
use elrond_go.Prelude.Int.{ℤ, pos, ◌+ℤ◌, ◌-ℤ◌, ltb_ℤ, eqb_ℤ, two64}
use elrond_go.Accounts.Types.{
  Account, AccountsDb, Failure, nil_transaction, higher_nonce, lower_nonce, insufficient_funds,
  wrong_transaction, nil_reward_transaction, Reply, done, failed, Out, Done, and_then, Storage,
  account_at,
}
use elrond_go.Accounts.Store.{
  get_account_with_journal, set_balance_with_journal, set_nonce_with_journal,
}
use elrond_go.Transactions.Economics.{
  Transaction, EconomicsData, compute_fee, check_validity_tx_values,
}

pub data TransactionType : Type 0 where
  move_balance sc_deployment sc_invoking other_type : TransactionType

-- the shard of the node and the shard of an address
pub record Coordinator : Type 0 where
  pub self_id : ℕ
  pub compute_id : Bytes → ℕ

-- the address converter, the type of a transaction, and the processor of smart contracts
pub record Handlers : Type 0 where
  pub create_address : Bytes → Reply Bytes
  pub compute_transaction_type : Transaction → Reply TransactionType
  pub deploy_smart_contract : Transaction → Option ℕ → ℕ → AccountsDb → Done
  pub execute_smart_contract : Transaction → Option ℕ → Option ℕ → ℕ → AccountsDb → Done

-- a check that says an error, or goes on
unfoldable pub check_then {ℓ} : {A : Type ℓ} → Option Failure → AccountsDb → Out A → Out A
check_then none db rest = rest
check_then (some e) db rest = (db, failed e)

unfoldable pub check_tx_values : Transaction → Option Account → Option Failure
check_tx_values tx none = none
check_tx_values tx (some a) =
    let cost = pos (tx.gas_price * tx.gas_limit) +ℤ tx.value in
    if ltb a.nonce tx.nonce
    then some higher_nonce
    else if ltb tx.nonce a.nonce
    then some lower_nonce
    else if eqb_ℤ cost (pos 0)
    then none
    else if ltb_ℤ a.balance cost
    then some insufficient_funds
    else none

module _ (s : Storage) (c : Coordinator) where
  unfoldable pub in_shard : Bytes → Bool
  in_shard address = c.compute_id address == c.self_id

  unfoldable pub fetch : Bytes → AccountsDb → Out (Option ℕ)
  fetch address db = and_then (get_account_with_journal s address db) (λ id d. (d, done (some id)))

  unfoldable pub get_account_from_address : Bytes → AccountsDb → Out (Option ℕ)
  unfolding in_shard fetch
  get_account_from_address address db =
      let fetched = fetch address db in if in_shard address then fetched else (db, done none)

  -- of one address, one object, wherever the address belongs
  unfoldable pub get_accounts : Bytes → Bytes → AccountsDb → Out (Option ℕ × Option ℕ)
  unfolding fetch get_account_from_address
  get_accounts src dst db =
      let same = and_then (fetch src db) (λ id d. (d, done (id, id))) in
      let both =
        and_then (get_account_from_address src db)
          (λ a d. and_then (get_account_from_address dst d) (λ b d'. (d', done (a, b)))) in
      if bytes_eq src dst then same else both

module _ (s : Storage) where
  -- of an account that the node holds
  unfoldable pub set_balance : Option ℕ → (ℤ → ℤ) → AccountsDb → Done
  unfolding account_at
  set_balance none change db = (db, done tt)
  set_balance (some id) change db =
      set_balance_with_journal s id (change (account_at id db).balance) db

  unfoldable pub move_balances : Option ℕ → Option ℕ → ℤ → AccountsDb → Done
  unfolding set_balance
  move_balances src dst value db =
      and_then (set_balance src (λ b. b -ℤ value) db) (λ _ d. set_balance dst (λ b. b +ℤ value) d)

  unfoldable pub increase_nonce : Option ℕ → AccountsDb → Done
  unfolding account_at
  increase_nonce none db = (db, done tt)
  increase_nonce (some id) db =
      set_nonce_with_journal s id (((account_at id db).nonce + 1) % two64) db

  unfoldable pub process_tx_fee : EconomicsData → Transaction → Option ℕ → AccountsDb → Out ℤ
  unfolding account_at
  process_tx_fee ed tx none db = (db, done (pos 0))
  process_tx_fee ed tx (some id) db =
      let cost = compute_fee ed tx in
      let paid =
        and_then (set_balance_with_journal s id ((account_at id db).balance -ℤ cost) db)
          (λ _ d. (d, done cost)) in
      check_then (check_validity_tx_values ed tx) db
        (if ltb_ℤ (account_at id db).balance cost then (db, failed insufficient_funds) else paid)

  -- processMoveBalance behind getAccounts
  unfoldable pub transfer : EconomicsData → Transaction → Option ℕ × Option ℕ → AccountsDb → Done
  unfolding process_tx_fee move_balances increase_nonce
  transfer ed tx (src, dst) db = and_then (process_tx_fee ed tx src db) (λ fee d.
      and_then (move_balances src dst tx.value d) (λ _ d'.
        and_then (increase_nonce src d')
          (λ _ d''. (record d'' { fees = fee ∷ d''.fees }, done tt))))

module _ (s : Storage) (c : Coordinator) (h : Handlers) (ed : EconomicsData) where
  unfoldable pub process_move_balance : Transaction → Bytes → Bytes → AccountsDb → Done
  unfolding get_accounts transfer
  process_move_balance tx src dst db = and_then (get_accounts s c src dst db) (transfer s ed tx)

  unfoldable pub process_sc_deployment : Transaction → Bytes → ℕ → AccountsDb → Done
  unfolding get_account_from_address
  process_sc_deployment tx src round db =
      and_then (get_account_from_address s c src db) (λ a d. h.deploy_smart_contract tx a round d)

  unfoldable pub process_sc_invoking : Transaction → Bytes → Bytes → ℕ → AccountsDb → Done
  unfolding get_accounts
  process_sc_invoking tx src dst round db =
      and_then (get_accounts s c src dst db) (λ p d. h.execute_smart_contract tx p.0 p.1 round d)

  -- the switch of txProcessor.ProcessTransaction
  unfoldable pub by_type : TransactionType → Transaction → Bytes → Bytes → ℕ → AccountsDb → Done
  by_type move_balance tx src dst round db = process_move_balance tx src dst db
  by_type sc_deployment tx src dst round db = process_sc_deployment tx src round db
  by_type sc_invoking tx src dst round db = process_sc_invoking tx src dst round db
  by_type other_type tx src dst round db = (db, failed wrong_transaction)

  -- the switch of metaTxProcessor.ProcessTransaction
  unfoldable pub by_type_meta :
      TransactionType → Transaction → Bytes → Bytes → ℕ → AccountsDb → Done
  by_type_meta move_balance tx src dst round db = (db, failed wrong_transaction)
  by_type_meta sc_deployment tx src dst round db = process_sc_deployment tx src round db
  by_type_meta sc_invoking tx src dst round db = process_sc_invoking tx src dst round db
  by_type_meta other_type tx src dst round db = (db, failed wrong_transaction)

  abbrev held : Option ℕ → AccountsDb → Option Account
  held none db = none
  held (some id) db = some (account_at id db)

  -- what the two processors share of ProcessTransaction, behind the addresses
  unfoldable pub checked :
      (TransactionType → Transaction → Bytes → Bytes → ℕ → AccountsDb → Done)
      → Transaction
      → Bytes
      → Bytes
      → ℕ
      → AccountsDb
      → Done
  unfolding get_account_from_address
  checked switch tx src dst round db = and_then (get_account_from_address s c src db) (λ a d.
      check_then (check_tx_values tx (held a d)) d
        (and_then (d, h.compute_transaction_type tx) (λ t d'. switch t tx src dst round d')))

  unfoldable pub with_addresses :
      (TransactionType → Transaction → Bytes → Bytes → ℕ → AccountsDb → Done)
      → Option Transaction
      → ℕ
      → AccountsDb
      → Done
  unfolding checked
  with_addresses switch none round db = (db, failed nil_transaction)
  with_addresses switch (some tx) round db =
      and_then (db, h.create_address tx.snd_addr)
        (λ src d.
          and_then (d, h.create_address tx.rcv_addr) (λ dst d'. checked switch tx src dst round d'))

  unfoldable pub process_transaction : Option Transaction → ℕ → AccountsDb → Done
  unfolding with_addresses
  process_transaction = with_addresses by_type

  unfoldable pub process_transaction_meta : Option Transaction → ℕ → AccountsDb → Done
  unfolding with_addresses
  process_transaction_meta = with_addresses by_type_meta

  -- `forward` is AddIntermediateTransactions of the forwarder; the transaction has a value
  unfoldable pub process_reward_transaction :
      Option Failure → Option (Bytes × ℤ) → AccountsDb → Done
  unfolding get_account_from_address set_balance
  process_reward_transaction forward none db = (db, failed nil_reward_transaction)
  process_reward_transaction forward (some (receiver, value)) db = check_then forward db (
      and_then (db, h.create_address receiver)
        (λ address d.
          and_then (get_account_from_address s c address d)
            (λ a d'. set_balance s a (λ b. value +ℤ b) d')))
