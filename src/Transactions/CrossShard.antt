-- ===== src/Transactions/CrossShard.antt =====
-- processMoveBalance between two shards: the side of the sender and the side of the receiver.
use elrond_go.Prelude.{
  ◌+◌, ◌%◌, ◌≡◌, refl, ap, ◌∙◌, inl, inr, true, false, none, some, ◌∷◌, if◌then◌else◌, Bool-cases,
}
use elrond_go.Prelude.Bytes.{Bytes, bytes_eq}
use elrond_go.Prelude.Int.{ℤ, ◌+ℤ◌, ◌-ℤ◌, ltb_ℤ, two64}
use elrond_go.Accounts.Types.{Account, AccountsDb, done, and_then, Storage, account_at}
use elrond_go.Accounts.Store.{allocate}
use elrond_go.Accounts.Changes.{
  IsSound, address_of, paid, numbered, paid_account, account_at-paid, address_of-paid,
  accounts-paid, accounts-numbered, object_at-hit, self_eq,
}
use elrond_go.Transactions.Economics.{
  Transaction, EconomicsData, compute_fee, check_validity_tx_values,
}
use elrond_go.Transactions.Process.{
  Coordinator, Handlers, in_shard, get_account_from_address, get_accounts, move_balances, transfer,
  process_move_balance,
}
use elrond_go.Transactions.Transfer.{
  process_tx_fee_lem, set_balance_lem, increase_nonce_lem, next_nonce,
}
use elrond_go.Transactions.MoveBalance.{fetch_lem}

pub elsewhere :
    (s : Storage) (c : Coordinator) (key : Bytes) (d : AccountsDb)
    → in_shard s c key ≡ false
    → get_account_from_address s c key d ≡ (d, done none)
unfolding get_account_from_address
elsewhere s c key d t = rw t refl

module _ (s : Storage) (sound : IsSound s) (c : Coordinator) (h : Handlers) (ed : EconomicsData)
    (tx : Transaction) (src dst : Bytes) (db : AccountsDb) (apart : bytes_eq src dst ≡ false) where
  -- the side of the sender -----------------------------------------------------------------------

  module _ (a : Account) (src_here : in_shard s c src ≡ true) (dst_there : in_shard s c dst ≡ false)
      (sender : db.accounts src ≡ some a) (valid : check_validity_tx_values ed tx ≡ none)
      (funded : ltb_ℤ a.balance (compute_fee ed tx) ≡ false) where
    abbrev fee : ℤ
    fee = compute_fee ed tx

    abbrev loaded : AccountsDb
    loaded = allocate src a db

    sender_account : account_at db.next loaded ≡ a
    sender_account =
        unfold account_at allocate in
        ap (λ o. o.account)
          (object_at-hit db.next db.next (record { address = src; account = a }) db.objects
            (self_eq db.next))

    sender_address : address_of db.next loaded ≡ src
    sender_address =
        unfold allocate in
        ap (λ o. o.address)
          (object_at-hit db.next db.next (record { address = src; account = a }) db.objects
            (self_eq db.next))

    abbrev d1 : AccountsDb
    d1 = paid db.next (λ b. b -ℤ fee) loaded

    abbrev d2 : AccountsDb
    d2 = paid db.next (λ b. b -ℤ tx.value) d1

    abbrev d3 : AccountsDb
    d3 = numbered db.next next_nonce d2

    can_pay : ltb_ℤ (account_at db.next loaded).balance fee ≡ false
    can_pay = rw sender_account funded

    sent :
        process_move_balance s c h ed tx src dst db ≡ (record d3 { fees = fee ∷ d3.fees }, done tt)
    unfolding process_move_balance get_accounts transfer move_balances and_then
    sent =
        rw
          (
            apart,
            fetch_lem s sound c src a db sender src_here,
            elsewhere s c dst loaded dst_there,
            process_tx_fee_lem s sound ed tx valid db.next loaded can_pay,
            set_balance_lem s sound ed tx valid db.next (λ b. b -ℤ tx.value) d1,
            increase_nonce_lem s sound ed tx valid db.next d2,
          )
          refl

    account1 : account_at db.next d1 ≡ record a { balance = a.balance -ℤ fee }
    account1 =
        rw (account_at-paid db.next (λ b. b -ℤ fee) loaded db.next, self_eq db.next)
          (unfold paid_account in rw sender_account refl)

    account2 : account_at db.next d2 ≡ record a { balance = a.balance -ℤ fee -ℤ tx.value }
    account2 =
        rw (account_at-paid db.next (λ b. b -ℤ tx.value) d1 db.next, self_eq db.next)
          (unfold paid_account in rw account1 refl)

    address1 : address_of db.next d1 ≡ src
    address1 = address_of-paid db.next (λ b. b -ℤ fee) loaded db.next ∙ sender_address

    address2 : address_of db.next d2 ≡ src
    address2 = address_of-paid db.next (λ b. b -ℤ tx.value) d1 db.next ∙ address1

    sent_accounts :
        (j : Bytes)
        → d3.accounts j ≡ (
            if bytes_eq j src
            then some
                (record a { nonce = (a.nonce + 1) % two64; balance = a.balance -ℤ fee -ℤ tx.value })
            else db.accounts j)
    sent_accounts j =
        rw (accounts-numbered db.next next_nonce d2 j, address2)
          (elim (Bool-cases (bytes_eq j src)) [
            | inl t ↦ rw (t, account2) (unfold next_nonce in refl)
            | inr t ↦
                rw
                  (
                    t,
                    accounts-paid db.next (λ b. b -ℤ tx.value) d1 j,
                    address1,
                    t,
                    accounts-paid db.next (λ b. b -ℤ fee) loaded j,
                    sender_address,
                    t,
                  )
                  (unfold allocate in refl)
          ])

    -- processMoveBalance in the shard of the sender, where the receiver belongs to another shard, the
    -- gas values are valid, the sender can pay the fee and the storage does not fail, has no error;
    -- it takes the fee and the value from the sender, counts up its nonce, and leaves every other
    -- account as it is.
    pub process_move_balance-sender :
        ((process_move_balance s c h ed tx src dst db).1 ≡ done tt)
        × ((j : Bytes)
            → (process_move_balance s c h ed tx src dst db).0.accounts j ≡ (
                if bytes_eq j src
                then some (record a {
                  nonce = (a.nonce + 1) % two64;
                  balance = a.balance -ℤ compute_fee ed tx -ℤ tx.value;
                })
                else db.accounts j))
    process_move_balance-sender = rw sent (refl, sent_accounts)

  -- the side of the receiver ---------------------------------------------------------------------

  module _ (b : Account) (src_there : in_shard s c src ≡ false) (dst_here : in_shard s c dst ≡ true)
      (receiver : db.accounts dst ≡ some b) where
    abbrev loaded' : AccountsDb
    loaded' = allocate dst b db

    abbrev d4 : AccountsDb
    d4 = paid db.next (λ x. x +ℤ tx.value) loaded'
