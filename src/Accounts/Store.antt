-- ===== src/Accounts/Store.antt =====
-- account.go, accountsDB.go, journalEntries.go and baseJournalEntries.go: fetching, changing and
-- saving accounts, and taking the changes back.
use elrond_go.Prelude.{
  ℕ, suc, ◌-◌, Bool, true, false, Option, none, some, List, [], ◌∷◌, ltb, if◌then◌else◌, length,
  drop, take,
}
use elrond_go.Prelude.Bytes.{Bytes}
use elrond_go.Prelude.Int.{ℤ}
use elrond_go.Accounts.Types.{
  Account, Object, JournalEntry, creation, balance_change, nonce_change, AccountsDb,
  nil_or_empty_key, done, failed, Out, Done, and_then, Storage, empty_account, account_at, store_at,
  object_at,
}

unfoldable pub journalize : JournalEntry → AccountsDb → AccountsDb
journalize e db = record db { entries = e ∷ db.entries }

-- assigns to an object
unfoldable pub assign : ℕ → Account → AccountsDb → AccountsDb
unfolding object_at
assign id a db = record db {
  objects = object_at id (record (db.objects id) { account = a }) db.objects;
}

-- a new object
unfoldable pub allocate : Bytes → Account → AccountsDb → AccountsDb
unfolding object_at
allocate address a db = record db {
  objects = object_at db.next (record { address = address; account = a }) db.objects;
  next = suc db.next;
}

unfoldable pub no_key : Bytes → Bool
no_key [] = true
no_key (b ∷ bs) = false

module _ (s : Storage) where
  unfoldable pub save_object : Object → AccountsDb → Done
  unfolding store_at
  save_object o db = elim (s.save_error o.address o.account) [
    | none ↦ (record db { accounts = store_at o.address (some o.account) db.accounts }, done tt)
    | some e ↦ (db, failed e)
  ]

  unfoldable pub save_account : ℕ → AccountsDb → Done
  unfolding save_object
  save_account id db = save_object (db.objects id) db

  unfoldable pub set_nonce_with_journal : ℕ → ℕ → AccountsDb → Done
  unfolding journalize assign account_at
  set_nonce_with_journal id nonce db =
      let a = account_at id db in
      save_account id
        (assign id (record a { nonce = nonce }) (journalize (nonce_change id a.nonce) db))

  unfoldable pub set_balance_with_journal : ℕ → ℤ → AccountsDb → Done
  unfolding journalize assign account_at
  set_balance_with_journal id balance db =
      let a = account_at id db in
      save_account id
        (assign id (record a { balance = balance }) (journalize (balance_change id a.balance) db))

  -- loadCode and loadDataTrie are not looked into: only whether they fail
  unfoldable pub load_account_handler : Bytes → Account → AccountsDb → Out ℕ
  load_account_handler address a db =
      let loaded = allocate address a db in
      elim (s.load_error_of a) [ none ↦ (loaded, done db.next) | some e ↦ (loaded, failed e) ]

  unfoldable pub new_account_handler : Bytes → AccountsDb → Out ℕ
  new_account_handler address db =
      let created = allocate address empty_account db in
      let saved = save_account db.next (journalize (creation address) created) in
      if no_key address
      then (created, failed nil_or_empty_key)
      else and_then saved (λ _ d. (d, done db.next))

  unfoldable pub get_account_with_journal : Bytes → AccountsDb → Out ℕ
  get_account_with_journal address db = elim (s.fetch_error address) [
    | some e ↦ (db, failed e)
    | none ↦ elim (db.accounts address) [
      | some a ↦ load_account_handler address a db
      | none ↦ new_account_handler address db
    ]
  ]

  -- Revert of the entries: the object that has to be saved again, if any
  unfoldable pub revert : JournalEntry → AccountsDb → Out (Option ℕ)
  revert (creation address) db = elim (s.remove_error address) [
    | none ↦ (record db { accounts = store_at address none db.accounts }, done none)
    | some e ↦ (db, failed e)
  ]
  revert (balance_change id old) db =
      (assign id (record (account_at id db) { balance = old }) db, done (some id))
  revert (nonce_change id old) db =
      (assign id (record (account_at id db) { nonce = old }) db, done (some id))

  -- the body of the loop of RevertToSnapshot: an error of SaveAccount is dropped there
  unfoldable pub save_reverted : Option ℕ → AccountsDb → Done
  save_reverted none db = (db, done tt)
  save_reverted (some id) db = ((save_account id db).0, done tt)

  -- the loop, from the newest entry on
  unfoldable pub revert_entries : List JournalEntry → AccountsDb → Done
  revert_entries [] db = (db, done tt)
  revert_entries (e ∷ es) db =
      and_then (and_then (revert e db) save_reverted) (λ _ d. revert_entries es d)

  unfoldable pub revert_to_snapshot : ℕ → AccountsDb → Done
  revert_to_snapshot snapshot db =
      let count = length db.entries - snapshot in
      let reverted =
        and_then (revert_entries (take count db.entries) db)
          (λ _ d. (record d { entries = drop count db.entries }, done tt)) in
      if ltb (length db.entries) snapshot then (db, done tt) else reverted

unfoldable pub journal_len : AccountsDb → ℕ
journal_len db = length db.entries

-- the step of Commit on the journal
unfoldable pub clear_journal : AccountsDb → AccountsDb
clear_journal db = record db { entries = [] }
