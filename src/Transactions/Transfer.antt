-- ===== src/Transactions/Transfer.antt =====
-- What processMoveBalance does to the stored accounts where the storage does not fail.
use elrond_go.Prelude.{
  ℕ, ◌+◌, ◌%◌, ◌≡◌, refl, ◌∙◌, inl, inr, false, none, some, ◌∷◌, arith, ◌==◌, if◌then◌else◌,
  Bool-cases,
}
use elrond_go.Prelude.Bytes.{Bytes, bytes_eq}
use elrond_go.Prelude.Int.{ℤ, ◌+ℤ◌, ◌-ℤ◌, ltb_ℤ, two64}
use elrond_go.Accounts.Types.{Account, AccountsDb, done, and_then, Storage, account_at}
use elrond_go.Accounts.Changes.{
  IsSound, address_of, paid, numbered, set_balance_with_journal_lem, set_nonce_with_journal_lem,
  paid_account, account_at-paid, address_of-paid, accounts-paid, accounts-numbered, self_eq,
}
use elrond_go.Transactions.Economics.{
  Transaction, EconomicsData, compute_fee, check_validity_tx_values,
}
use elrond_go.Transactions.Process.{
  check_then, set_balance, move_balances, increase_nonce, process_tx_fee, transfer,
}

unfoldable pub next_nonce : ℕ → ℕ
next_nonce n = (n + 1) % two64

module _ (s : Storage) (sound : IsSound s) (ed : EconomicsData) (tx : Transaction)
    (valid : check_validity_tx_values ed tx ≡ none) where
  abbrev fee : ℤ
  fee = compute_fee ed tx

  -- the state behind a transfer
  unfoldable pub after_transfer : ℕ → ℕ → AccountsDb → AccountsDb
  after_transfer i k db =
      let d =
        numbered i next_nonce
          (paid k (λ b. b +ℤ tx.value) (paid i (λ b. b -ℤ tx.value) (paid i (λ b. b -ℤ fee) db))) in
      record d { fees = fee ∷ d.fees }

  pub process_tx_fee_lem :
      (i : ℕ) (db : AccountsDb)
      → ltb_ℤ (account_at i db).balance fee ≡ false
      → process_tx_fee s ed tx (some i) db ≡ (paid i (λ b. b -ℤ fee) db, done fee)
  unfolding process_tx_fee check_then and_then
  process_tx_fee_lem i db h =
      rw (valid, h, set_balance_with_journal_lem s sound i (λ b. b -ℤ fee) db) refl

  pub set_balance_lem :
      (i : ℕ) (f : ℤ → ℤ) (db : AccountsDb) → set_balance s (some i) f db ≡ (paid i f db, done tt)
  unfolding set_balance
  set_balance_lem i f db = set_balance_with_journal_lem s sound i f db

  pub increase_nonce_lem :
      (i : ℕ) (db : AccountsDb) → increase_nonce s (some i) db ≡ (numbered i next_nonce db, done tt)
  unfolding increase_nonce next_nonce
  increase_nonce_lem i db = set_nonce_with_journal_lem s sound i next_nonce db

  pub transfer_lem :
      (i k : ℕ) (db : AccountsDb)
      → ltb_ℤ (account_at i db).balance fee ≡ false
      → transfer s ed tx (some i, some k) db ≡ (after_transfer i k db, done tt)
  unfolding transfer move_balances and_then after_transfer
  transfer_lem i k db h =
      rw
        (
          process_tx_fee_lem i db h,
          set_balance_lem i (λ b. b -ℤ tx.value) (paid i (λ b. b -ℤ fee) db),
          set_balance_lem k (λ b. b +ℤ tx.value)
              (paid i (λ b. b -ℤ tx.value) (paid i (λ b. b -ℤ fee) db)),
          increase_nonce_lem i (
              paid k (λ b. b +ℤ tx.value)
                (paid i (λ b. b -ℤ tx.value) (paid i (λ b. b -ℤ fee) db))),
        )
        refl

  module _ (i k : ℕ) (db : AccountsDb) (apart : (k == i) ≡ false) where
    abbrev a : Account
    a = account_at i db

    abbrev b : Account
    b = account_at k db

    abbrev d1 : AccountsDb
    d1 = paid i (λ x. x -ℤ fee) db

    abbrev d2 : AccountsDb
    d2 = paid i (λ x. x -ℤ tx.value) d1

    abbrev d3 : AccountsDb
    d3 = paid k (λ x. x +ℤ tx.value) d2

    sender1 : account_at i d1 ≡ record a { balance = a.balance -ℤ fee }
    sender1 = rw (account_at-paid i (λ x. x -ℤ fee) db i, self_eq i) (unfold paid_account in refl)

    sender2 : account_at i d2 ≡ record a { balance = a.balance -ℤ fee -ℤ tx.value }
    sender2 =
        rw (account_at-paid i (λ x. x -ℤ tx.value) d1 i, self_eq i)
          (unfold paid_account in rw sender1 refl)

    sender3 : account_at i d3 ≡ record a { balance = a.balance -ℤ fee -ℤ tx.value }
    sender3 =
        let t : (i == k) ≡ false = ground (arith, apart) in
        rw (account_at-paid k (λ x. x +ℤ tx.value) d2 i, t) sender2

    receiver2 : account_at k d2 ≡ b
    receiver2 =
        rw
          (
            account_at-paid i (λ x. x -ℤ tx.value) d1 k,
            apart,
            account_at-paid i (λ x. x -ℤ fee) db k,
            apart,
          )
          refl

    address2 : (n : ℕ) → address_of n d2 ≡ address_of n db
    address2 n =
        address_of-paid i (λ x. x -ℤ tx.value) d1 n ∙ address_of-paid i (λ x. x -ℤ fee) db n

    address3 : (n : ℕ) → address_of n d3 ≡ address_of n db
    address3 n = address_of-paid k (λ x. x +ℤ tx.value) d2 n ∙ address2 n

    -- the accounts of other addresses
    others : (j : Bytes) → bytes_eq j (address_of i db) ≡ false → d2.accounts j ≡ db.accounts j
    others j t =
        rw
          (
            accounts-paid i (λ x. x -ℤ tx.value) d1 j,
            address_of-paid i (λ x. x -ℤ fee) db i,
            t,
            accounts-paid i (λ x. x -ℤ fee) db j,
            t,
          )
          refl

    pub after_transfer-accounts :
        (j : Bytes)
        → (after_transfer i k db).accounts j ≡ (
            if bytes_eq j (address_of i db)
            then some
                (record a { nonce = next_nonce a.nonce; balance = a.balance -ℤ fee -ℤ tx.value })
            else if bytes_eq j (address_of k db)
            then some (record b { balance = b.balance +ℤ tx.value })
            else db.accounts j)
    unfolding after_transfer
    after_transfer-accounts j =
        rw (accounts-numbered i next_nonce d3 j, address3 i)
          (elim (Bool-cases (bytes_eq j (address_of i db))) [
            | inl t ↦ rw (t, sender3) refl
            | inr t ↦
                rw (t, accounts-paid k (λ x. x +ℤ tx.value) d2 j, address2 k)
                  (elim (Bool-cases (bytes_eq j (address_of k db))) [
                    | inl u ↦ rw u (unfold paid_account in rw receiver2 refl)
                    | inr u ↦ rw u (others j t)
                  ])
          ])
