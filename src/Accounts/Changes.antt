-- ===== src/Accounts/Changes.antt =====
-- SetBalanceWithJournal and SetNonceWithJournal where the storage does not fail, as one change of
-- the state.
use elrond_go.Prelude.{
  ℕ, ◌≡◌, refl, sym, ap, inl, inr, true, false, none, some, ◌∷◌, arith, ◌==◌, ==_iff, if◌then◌else◌,
  Bool-cases, ◌∙◌,
}
use elrond_go.Prelude.Bytes.{Bytes, bytes_eq}
use elrond_go.Prelude.Int.{ℤ}
use elrond_go.Accounts.Types.{
  Account, Object, JournalEntry, balance_change, nonce_change, AccountsDb, done, Storage,
  account_at, store_at, object_at,
}
use elrond_go.Accounts.Store.{
  journalize, assign, allocate, save_account, save_object, set_nonce_with_journal,
  set_balance_with_journal, load_account_handler, get_account_with_journal,
}

-- a storage that does not fail
pub record IsSound (s : Storage) : Type 0 where
  pub fetches : (key : Bytes) → s.fetch_error key ≡ none
  pub saves : (key : Bytes) (a : Account) → s.save_error key a ≡ none
  pub removes : (key : Bytes) → s.remove_error key ≡ none
  pub loads : (a : Account) → s.load_error_of a ≡ none

abbrev pub address_of : ℕ → AccountsDb → Bytes
address_of id db = (db.objects id).address

-- an object with another account, journalized and saved
unfoldable pub saved : ℕ → Account → JournalEntry → AccountsDb → AccountsDb
saved id a e db = record db {
  accounts = store_at (db.objects id).address (some a) db.accounts;
  objects = object_at id (record (db.objects id) { account = a }) db.objects;
  entries = e ∷ db.entries;
}

pub self_eq : (k : ℕ) → (k == k) ≡ true
self_eq k = ground arith

pub object_at-hit :
    (k id : ℕ) (o : Object) (f : ℕ → Object) → (k == id) ≡ true → object_at id o f k ≡ o
unfolding object_at
object_at-hit k id o f t = rw t refl

pub object_at-miss :
    (k id : ℕ) (o : Object) (f : ℕ → Object) → (k == id) ≡ false → object_at id o f k ≡ f k
unfolding object_at
object_at-miss k id o f t = rw t refl

pub account_at-saved :
    (k id : ℕ) (a : Account) (e : JournalEntry) (db : AccountsDb)
    → account_at k (saved id a e db) ≡ (if k == id then a else account_at k db)
unfolding account_at saved
account_at-saved k id a e db =
    let o : Object = record (db.objects id) { account = a } in
    elim (Bool-cases (k == id)) [
      | inl t ↦ rw t (ap (λ x. x.account) (object_at-hit k id o db.objects t))
      | inr t ↦ rw t (ap (λ x. x.account) (object_at-miss k id o db.objects t))
    ]

pub address_of-saved :
    (k id : ℕ) (a : Account) (e : JournalEntry) (db : AccountsDb)
    → address_of k (saved id a e db) ≡ address_of k db
unfolding saved
address_of-saved k id a e db =
    let o : Object = record (db.objects id) { account = a } in
    elim (Bool-cases (k == id)) [
      | inl t ↦
          ap (λ x. x.address) (object_at-hit k id o db.objects t)
          ∙ ap (λ x. address_of x db) (sym ((==_iff k id).0 t))
      | inr t ↦ ap (λ x. x.address) (object_at-miss k id o db.objects t)
    ]

pub accounts-saved :
    (j : Bytes) (id : ℕ) (a : Account) (e : JournalEntry) (db : AccountsDb)
    → (saved id a e db).accounts j
      ≡ (if bytes_eq j (address_of id db) then some a else db.accounts j)
unfolding saved store_at
accounts-saved j id a e db = refl

unfoldable pub paid : ℕ → (ℤ → ℤ) → AccountsDb → AccountsDb
paid id f db =
    let a = account_at id db in
    saved id (record a { balance = f a.balance }) (balance_change id a.balance) db

unfoldable pub numbered : ℕ → (ℕ → ℕ) → AccountsDb → AccountsDb
numbered id f db =
    let a = account_at id db in
    saved id (record a { nonce = f a.nonce }) (nonce_change id a.nonce) db

module _ (s : Storage) (sound : IsSound s) where
  pub save_object_lem :
      (o : Object) (db : AccountsDb)
      → save_object s o db
        ≡ (record db { accounts = store_at o.address (some o.account) db.accounts }, done tt)
  unfolding save_object
  save_object_lem o db = rw (sound.saves o.address o.account, save_object) refl

  pub save_account-assign :
      (id : ℕ) (a : Account) (e : JournalEntry) (db : AccountsDb)
      → save_account s id (assign id a (journalize e db)) ≡ (saved id a e db, done tt)
  unfolding save_account assign journalize saved
  save_account-assign id a e db =
      let o : Object = record (db.objects id) { account = a } in
      ap (λ x. save_object s x (assign id a (journalize e db)))
        (object_at-hit id id o db.objects (self_eq id))
      ∙ save_object_lem o (assign id a (journalize e db))

  pub set_balance_with_journal_lem :
      (id : ℕ) (f : ℤ → ℤ) (db : AccountsDb)
      → set_balance_with_journal s id (f (account_at id db).balance) db ≡ (paid id f db, done tt)
  unfolding set_balance_with_journal paid
  set_balance_with_journal_lem id f db =
      let a = account_at id db in
      save_account-assign id (record a { balance = f a.balance }) (balance_change id a.balance) db

  pub set_nonce_with_journal_lem :
      (id : ℕ) (f : ℕ → ℕ) (db : AccountsDb)
      → set_nonce_with_journal s id (f (account_at id db).nonce) db ≡ (numbered id f db, done tt)
  unfolding set_nonce_with_journal numbered
  set_nonce_with_journal_lem id f db =
      let a = account_at id db in
      save_account-assign id (record a { nonce = f a.nonce }) (nonce_change id a.nonce) db

  -- an account that is stored
  pub get_account_with_journal_lem :
      (key : Bytes) (a : Account) (db : AccountsDb)
      → db.accounts key ≡ some a
      → get_account_with_journal s key db ≡ (allocate key a db, done db.next)
  unfolding get_account_with_journal load_account_handler
  get_account_with_journal_lem key a db h =
      rw (sound.fetches key, h, load_account_handler, sound.loads a, get_account_with_journal) refl

module _ (id : ℕ) (f : ℤ → ℤ) (db : AccountsDb) where
  unfoldable pub paid_account : Account
  paid_account = record (account_at id db) { balance = f (account_at id db).balance }

  pub account_at-paid :
      (k : ℕ) → account_at k (paid id f db) ≡ (if k == id then paid_account else account_at k db)
  unfolding paid paid_account
  account_at-paid k =
      account_at-saved k id paid_account (balance_change id (account_at id db).balance) db

  pub address_of-paid : (k : ℕ) → address_of k (paid id f db) ≡ address_of k db
  unfolding paid paid_account
  address_of-paid k =
      address_of-saved k id paid_account (balance_change id (account_at id db).balance) db

  pub accounts-paid :
      (j : Bytes)
      → (paid id f db).accounts j
        ≡ (if bytes_eq j (address_of id db) then some paid_account else db.accounts j)
  unfolding paid paid_account
  accounts-paid j =
      accounts-saved j id paid_account (balance_change id (account_at id db).balance) db

pub accounts-numbered :
    (id : ℕ) (f : ℕ → ℕ) (db : AccountsDb) (j : Bytes)
    → (numbered id f db).accounts j ≡ (
        if bytes_eq j (address_of id db)
        then some (record (account_at id db) { nonce = f (account_at id db).nonce })
        else db.accounts j)
unfolding numbered
accounts-numbered id f db j =
    accounts-saved j id (record (account_at id db) { nonce = f (account_at id db).nonce })
      (nonce_change id (account_at id db).nonce) db
