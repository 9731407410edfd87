-- ===== src/Transactions/Tests.antt =====
-- One transfer between two accounts.
use elrond_go.Prelude.{
  ℕ, ◌+◌, ◌%◌, ◌≡◌, refl, ◌⊎◌, ◌↔◌, true, false, none, some, [], ◌∷◌, if◌then◌else◌,
}
use elrond_go.Prelude.Bytes.{Bytes, bytes_eq}
use elrond_go.Prelude.Int.{pos, ◌+ℤ◌, ◌-ℤ◌, ◌≤ℤ◌, ltb_ℤ, two64}
use elrond_go.Accounts.Types.{Account, AccountsDb, done, Storage}
use elrond_go.Accounts.Changes.{IsSound}
use elrond_go.Transactions.Economics.{
  Transaction, EconomicsData, compute_gas_limit, compute_fee, check_validity_tx_values,
}
use elrond_go.Transactions.Process.{
  Coordinator, Handlers, move_balance, in_shard, check_tx_values, process_move_balance,
  process_transaction, process_reward_transaction,
}
use elrond_go.Transactions.MoveBalance.{process_move_balance_lem}
use elrond_go.Transactions.CrossShard.{process_move_balance-sender}
use elrond_go.Transactions.Reward.{process_reward_transaction_lem}
use elrond_go.Transactions.Checks.{cost, check_tx_values_iff, fee-covered}
use elrond_go.Transactions.Outcome.{process_transaction_lem}

abbrev storage : Storage
storage = record {
  fetch_error = λ key. none;
  save_error = λ key a. none;
  remove_error = λ key. none;
  load_error_of = λ a. none;
}

storage-IsSound : IsSound storage
storage-IsSound = record {
  fetches = λ key. refl;
  saves = λ key a. refl;
  removes = λ key. refl;
  loads = λ a. refl;
}

abbrev one_shard : Coordinator
one_shard = record { self_id = 0; compute_id = λ address. 0 }

abbrev handlers : Handlers
handlers = record {
  create_address = λ address. done address;
  compute_transaction_type = λ tx. done move_balance;
  deploy_smart_contract = λ tx src round db. (db, done tt);
  execute_smart_contract = λ tx src dst round db. (db, done tt);
}

abbrev economics : EconomicsData
economics = record { min_gas_price = 2; min_gas_limit = 5; max_gas_limit_per_block = 1000 }

abbrev alice : Bytes
alice = 1 ∷ []

abbrev bob : Bytes
bob = 2 ∷ []

-- a transfer of 30 with the nonce n
abbrev pay : ℕ → Transaction
pay n = record {
  nonce = n;
  value = pos 30;
  rcv_addr = bob;
  snd_addr = alice;
  gas_price = 2;
  gas_limit = 8;
  tx_data = 104 ∷ [];
}

abbrev hundred : Account
hundred = record { nonce = 4; balance = pos 100; code_hash = []; root_hash = [] }

abbrev both : AccountsDb
both = record {
  accounts = λ j. some hundred;
  objects = λ k. record { address = []; account = hundred };
  next = 0;
  entries = [];
  fees = [];
}

here : (key : Bytes) → in_shard storage one_shard key ≡ true
unfolding in_shard
here key = refl

taken : check_tx_values (pay 4) (some hundred) ≡ none
unfolding check_tx_values ◌+ℤ◌
taken = refl

valid : check_validity_tx_values economics (pay 4) ≡ none
unfolding check_validity_tx_values compute_gas_limit
valid = refl

different : bytes_eq alice bob ≡ false
unfolding bytes_eq
different = refl

funded : ltb_ℤ hundred.balance (compute_fee economics (pay 4)) ≡ false
unfolding compute_fee compute_gas_limit
funded = refl

check_tx_values_iff_example :
    (check_tx_values (pay 4) (some hundred) ≡ none)
    ↔ ((hundred.nonce ≡ (pay 4).nonce) × ((cost (pay 4) ≡ pos 0) ⊎ (cost (pay 4) ≤ℤ pos 100)))
check_tx_values_iff_example = check_tx_values_iff (pay 4) hundred

fee-covered_example : compute_fee economics (pay 4) +ℤ pos 30 ≤ℤ pos 100
fee-covered_example = fee-covered economics (pay 4) hundred 30 100 refl refl taken valid

process_move_balance_lem_example :
    ((process_move_balance storage one_shard handlers economics (pay 4) alice bob both).1 ≡ done tt)
    × ((j : Bytes)
        → (process_move_balance storage one_shard handlers economics
              (pay 4)
              alice
              bob
              both).0.accounts
            j
          ≡ (if bytes_eq j alice
              then some (record hundred {
                nonce = (4 + 1) % two64;
                balance = pos 100 -ℤ compute_fee economics (pay 4) -ℤ pos 30;
              })
              else if bytes_eq j bob
              then some (record hundred { balance = pos 100 +ℤ pos 30 })
              else some hundred))
    × ((process_move_balance storage one_shard handlers economics (pay 4) alice bob both).0.fees
        ≡ compute_fee economics (pay 4) ∷ [])
process_move_balance_lem_example =
    process_move_balance_lem storage storage-IsSound one_shard alice bob hundred hundred both
      different (here alice) (here bob) refl refl handlers economics (pay 4) valid funded

process_transaction_lem_example :
    ((process_transaction storage one_shard handlers economics (some (pay 4)) 0 both).1 ≡ done tt)
    × ((j : Bytes)
        → (process_transaction storage one_shard handlers economics
              (some (pay 4))
              0
              both).0.accounts
            j
          ≡ (if bytes_eq j alice
              then some (record hundred {
                nonce = (4 + 1) % two64;
                balance = pos 100 -ℤ compute_fee economics (pay 4) -ℤ pos 30;
              })
              else if bytes_eq j bob
              then some (record hundred { balance = pos 100 +ℤ pos 30 })
              else some hundred))
    × (pos 0 ≤ℤ pos 100 -ℤ compute_fee economics (pay 4) -ℤ pos 30)
process_transaction_lem_example =
    process_transaction_lem storage storage-IsSound one_shard handlers economics (pay 4) 0 alice bob
      refl refl hundred both (here alice) refl hundred 30 100 different (here bob) refl refl taken
      valid refl refl

-- the first byte of an address is its shard
abbrev first_byte : Bytes → ℕ
first_byte [] = 0
first_byte (b ∷ bs) = b

abbrev two_shards : ℕ → Coordinator
two_shards self = record { self_id = self; compute_id = first_byte }

process_move_balance-sender_example :
    ((process_move_balance storage (two_shards 1) handlers economics (pay 4) alice bob both).1
      ≡ done tt)
    × ((j : Bytes)
        → (process_move_balance storage
              (two_shards 1)
              handlers
              economics
              (pay 4)
              alice
              bob
              both).0.accounts
            j
          ≡ (if bytes_eq j alice
              then some (record hundred {
                nonce = (4 + 1) % two64;
                balance = pos 100 -ℤ compute_fee economics (pay 4) -ℤ pos 30;
              })
              else some hundred))
process_move_balance-sender_example =
    process_move_balance-sender storage storage-IsSound (two_shards 1) handlers economics (pay 4)
      alice bob both different hundred (unfold in_shard in refl) (unfold in_shard in refl) refl
      valid funded

process_reward_transaction_lem_example :
    ((process_reward_transaction storage one_shard handlers economics none
        (some (bob, pos 7))
        both).1
      ≡ done tt)
    × ((j : Bytes)
        → (process_reward_transaction storage one_shard handlers economics none
              (some (bob, pos 7))
              both).0.accounts
            j
          ≡ (if in_shard storage one_shard bob
              then if bytes_eq j bob
                then some (record hundred { balance = pos 7 +ℤ pos 100 })
                else some hundred
              else some hundred))
process_reward_transaction_lem_example =
    process_reward_transaction_lem storage storage-IsSound one_shard handlers economics bob bob refl
      (pos 7) hundred both refl
