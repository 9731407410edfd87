-- ===== src/Transactions/MoveBalance.antt =====
-- processMoveBalance between two stored accounts of the node's shard, and the checks before it.
use elrond_go.Prelude.{
  suc, ◌+◌, ◌%◌, ◌≡◌, refl, ap, ◌∙◌, true, false, none, some, ◌∷◌, arith, ◌==◌, if◌then◌else◌,
}
use elrond_go.Prelude.Bytes.{Bytes, bytes_eq}
use elrond_go.Prelude.Int.{◌+ℤ◌, ◌-ℤ◌, ltb_ℤ, two64}
use elrond_go.Accounts.Types.{Account, AccountsDb, done, and_then, Storage, account_at}
use elrond_go.Accounts.Store.{allocate}
use elrond_go.Accounts.Changes.{
  IsSound, address_of, get_account_with_journal_lem, object_at-hit, object_at-miss, self_eq,
  numbered, paid, saved,
}
use elrond_go.Transactions.Economics.{
  Transaction, EconomicsData, compute_fee, check_validity_tx_values,
}
use elrond_go.Transactions.Process.{
  Coordinator, Handlers, in_shard, fetch, get_account_from_address, get_accounts,
  process_move_balance,
}
use elrond_go.Transactions.Transfer.{
  transfer_lem, after_transfer, after_transfer-accounts, next_nonce,
}

module _ (s : Storage) (sound : IsSound s) (c : Coordinator) where
  pub fetch_lem :
      (key : Bytes) (x : Account) (d : AccountsDb)
      → d.accounts key ≡ some x
      → in_shard s c key ≡ true
      → get_account_from_address s c key d ≡ (allocate key x d, done (some d.next))
  unfolding get_account_from_address fetch and_then
  fetch_lem key x d h t = rw (t, get_account_with_journal_lem s sound key x d h) refl

module _ (s : Storage) (sound : IsSound s) (c : Coordinator) (src dst : Bytes) (a b : Account)
    (db : AccountsDb) (apart : bytes_eq src dst ≡ false) (src_here : in_shard s c src ≡ true)
    (dst_here : in_shard s c dst ≡ true) (sender : db.accounts src ≡ some a)
    (receiver : db.accounts dst ≡ some b) where
  abbrev loaded1 : AccountsDb
  loaded1 = allocate src a db

  abbrev loaded2 : AccountsDb
  loaded2 = allocate dst b loaded1

  get_accounts_lem :
      get_accounts s c src dst db ≡ (loaded2, done (some db.next, some (suc db.next)))
  unfolding get_accounts and_then allocate
  get_accounts_lem =
      rw
        (
          apart,
          fetch_lem s sound c src a db sender src_here,
          fetch_lem s sound c dst b loaded1 receiver dst_here,
        )
        refl

  object1 : loaded2.objects db.next ≡ record { address = src; account = a }
  object1 =
      unfold allocate in
      object_at-miss db.next (suc db.next) (record { address = dst; account = b }) loaded1.objects
        (ground arith)
      ∙ object_at-hit db.next db.next (record { address = src; account = a }) db.objects
          (self_eq db.next)

  object2 : loaded2.objects (suc db.next) ≡ record { address = dst; account = b }
  object2 =
      unfold allocate in
      object_at-hit (suc db.next) (suc db.next) (record { address = dst; account = b })
        loaded1.objects (self_eq (suc db.next))

  module _ (h : Handlers) (ed : EconomicsData) (tx : Transaction)
      (valid : check_validity_tx_values ed tx ≡ none)
      (funded : ltb_ℤ a.balance (compute_fee ed tx) ≡ false) where
    abbrev moved : AccountsDb
    moved = after_transfer s sound ed tx valid db.next (suc db.next) loaded2

    sender_account : account_at db.next loaded2 ≡ a
    sender_account = unfold account_at in ap (λ o. o.account) object1

    can_pay : ltb_ℤ (account_at db.next loaded2).balance (compute_fee ed tx) ≡ false
    can_pay = rw sender_account funded

    receiver_account : account_at (suc db.next) loaded2 ≡ b
    receiver_account = unfold account_at in ap (λ o. o.account) object2

    sender_address : address_of db.next loaded2 ≡ src
    sender_address = ap (λ o. o.address) object1

    receiver_address : address_of (suc db.next) loaded2 ≡ dst
    receiver_address = ap (λ o. o.address) object2

    whole : process_move_balance s c h ed tx src dst db ≡ (moved, done tt)
    whole =
        unfold process_move_balance and_then in
        rw
          (get_accounts_lem, transfer_lem s sound ed tx valid db.next (suc db.next) loaded2 can_pay)
          refl

    -- processMoveBalance between two different stored accounts of the node's shard, with gas values
    -- that are valid and a sender that can pay the fee, on a storage that does not fail, has no
    -- error; it takes the fee and the value from the sender and counts up its nonce, gives the value
    -- to the receiver, leaves every other account as it is, and hands the fee to the fee handler.
    pub process_move_balance_lem :
        ((process_move_balance s c h ed tx src dst db).1 ≡ done tt)
        × ((j : Bytes)
            → (process_move_balance s c h ed tx src dst db).0.accounts j ≡ (
                if bytes_eq j src
                then some (record a {
                  nonce = (a.nonce + 1) % two64;
                  balance = a.balance -ℤ compute_fee ed tx -ℤ tx.value;
                })
                else if bytes_eq j dst
                then some (record b { balance = b.balance +ℤ tx.value })
                else db.accounts j))
        × ((process_move_balance s c h ed tx src dst db).0.fees ≡ compute_fee ed tx ∷ db.fees)
    process_move_balance_lem = rw whole (
      refl,
      (λ j. moved_accounts j),
      (unfold after_transfer numbered paid saved allocate in refl),
    )
      where
        moved_accounts :
            (j : Bytes)
            → moved.accounts j ≡ (
                if bytes_eq j src
                then some (record a {
                  nonce = (a.nonce + 1) % two64;
                  balance = a.balance -ℤ compute_fee ed tx -ℤ tx.value;
                })
                else if bytes_eq j dst
                then some (record b { balance = b.balance +ℤ tx.value })
                else db.accounts j)
        moved_accounts j =
            let other : (suc db.next == db.next) ≡ false = ground arith in
            let t =
              after_transfer-accounts s sound ed tx valid db.next (suc db.next) loaded2 other j in
            unfold next_nonce allocate in
            (rw (sender_address, receiver_address, sender_account, receiver_account) at t)
