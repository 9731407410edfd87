-- ===== src/Transactions/Reward.antt =====
-- ProcessRewardTransaction of process/rewardTransaction/process.go.
use elrond_go.Prelude.{◌≡◌, refl, ap, inl, inr, true, false, none, some, if◌then◌else◌, Bool-cases}
use elrond_go.Prelude.Bytes.{Bytes, bytes_eq}
use elrond_go.Prelude.Int.{ℤ, ◌+ℤ◌}
use elrond_go.Accounts.Types.{Account, AccountsDb, done, and_then, Storage, account_at}
use elrond_go.Accounts.Store.{allocate}
use elrond_go.Accounts.Changes.{
  IsSound, address_of, paid, paid_account, accounts-paid, set_balance_with_journal_lem,
  object_at-hit, self_eq,
}
use elrond_go.Transactions.Economics.{EconomicsData}
use elrond_go.Transactions.Process.{
  Coordinator, Handlers, check_then, in_shard, set_balance, process_reward_transaction,
}
use elrond_go.Transactions.MoveBalance.{fetch_lem}
use elrond_go.Transactions.CrossShard.{elsewhere}

module _ (s : Storage) (sound : IsSound s) (c : Coordinator) (h : Handlers) (ed : EconomicsData)
    (receiver address : Bytes) (to : h.create_address receiver ≡ done address) (value : ℤ)
    (b : Account) (db : AccountsDb) (stored : db.accounts address ≡ some b) where
  abbrev loaded : AccountsDb
  loaded = allocate address b db

  there : loaded.objects db.next ≡ record { address = address; account = b }
  there =
      unfold allocate in
      object_at-hit db.next db.next (record { address = address; account = b }) db.objects
        (self_eq db.next)

  loaded_account : account_at db.next loaded ≡ b
  loaded_account = unfold account_at in ap (λ o. o.account) there

  loaded_address : address_of db.next loaded ≡ address
  loaded_address = ap (λ o. o.address) there

  abbrev rewarded : AccountsDb
  rewarded = paid db.next (λ x. value +ℤ x) loaded

  here :
      in_shard s c address ≡ true
      → process_reward_transaction s c h ed none (some (receiver, value)) db ≡ (rewarded, done tt)
  unfolding process_reward_transaction check_then and_then set_balance
  here t =
      rw
        (
          to,
          fetch_lem s sound c address b db stored t,
          set_balance_with_journal_lem s sound db.next (λ x. value +ℤ x) loaded,
        )
        refl

  not_here :
      in_shard s c address ≡ false
      → process_reward_transaction s c h ed none (some (receiver, value)) db ≡ (db, done tt)
  unfolding process_reward_transaction check_then and_then set_balance
  not_here t = rw (to, elsewhere s c address db t) refl

  rewarded_accounts :
      (j : Bytes)
      → rewarded.accounts j ≡ (
          if bytes_eq j address
          then some (record b { balance = value +ℤ b.balance })
          else db.accounts j)
  rewarded_accounts j =
      rw (accounts-paid db.next (λ x. value +ℤ x) loaded j, loaded_address)
        (elim (Bool-cases (bytes_eq j address)) [
          | inl t ↦ rw t (unfold paid_account in rw loaded_account refl)
          | inr t ↦ rw t (unfold allocate in refl)
        ])

  -- ProcessRewardTransaction to a stored account, where the forwarder takes the reward and the
  -- storage does not fail, has no error; in the shard of the account it adds the value to its balance
  -- and leaves every other account as it is; in another shard it changes no account.
  pub process_reward_transaction_lem :
      ((process_reward_transaction s c h ed none (some (receiver, value)) db).1 ≡ done tt)
      × ((j : Bytes)
          → (process_reward_transaction s c h ed none (some (receiver, value)) db).0.accounts j ≡ (
              if in_shard s c address
              then if bytes_eq j address
                then some (record b { balance = value +ℤ b.balance })
                else db.accounts j
              else db.accounts j))
  process_reward_transaction_lem = elim (Bool-cases (in_shard s c address)) [
    | inl t ↦ rw (here t, t) (refl, rewarded_accounts)
    | inr t ↦ rw (not_here t, t) (refl, λ j. refl)
  ]
