-- ===== src/Accounts/Snapshot.antt =====
-- RevertToSnapshot takes back every change since the snapshot.
use elrond_go.Prelude.{
  ℕ, ◌-◌, ◌≡◌, refl, sym, ap, ◌∙◌, Bool, true, false, List, [], ◌∷◌, ◌++◌, arith, ltb, length,
  length-append, take, drop,
}
use elrond_go.Prelude.Bytes.{Bytes}
use elrond_go.Prelude.Maps.{All}
use elrond_go.Prelude.Int.{ℤ}
use elrond_go.Accounts.Types.{
  Account, JournalEntry, balance_change, nonce_change, AccountsDb, done, failed, Done, and_then,
  Storage, account_at,
}
use elrond_go.Accounts.Store.{
  set_nonce_with_journal, set_balance_with_journal, revert, save_reverted, revert_entries,
  revert_to_snapshot, journal_len,
}
use elrond_go.Accounts.Changes.{
  IsSound, saved, paid, numbered, set_balance_with_journal_lem, set_nonce_with_journal_lem,
}
use elrond_go.Accounts.Undo.{SameAs, TakenBack, taken_back, Synced, saved-Synced}

-- the calls that the journal can take back
pub data Update : Type 0 where
  balance_to : ℕ → ℤ → Update
  nonce_to : ℕ → ℕ → Update

unfoldable pub subject : Update → ℕ
subject (balance_to id b) = id
subject (nonce_to id n) = id

unfoldable pub apply : Storage → Update → AccountsDb → Done
apply s (balance_to id b) db = set_balance_with_journal s id b db
apply s (nonce_to id n) db = set_nonce_with_journal s id n db

-- until the first error
unfoldable pub apply_all : Storage → List Update → AccountsDb → Done
unfolding apply
apply_all s [] db = (db, done tt)
apply_all s (u ∷ us) db = and_then (apply s u db) (λ _ d. apply_all s us d)

changed_to : Update → Account → Account
changed_to (balance_to id b) a = record a { balance = b }
changed_to (nonce_to id n) a = record a { nonce = n }

entry_of : Update → AccountsDb → JournalEntry
entry_of (balance_to id b) db = balance_change id (account_at id db).balance
entry_of (nonce_to id n) db = nonce_change id (account_at id db).nonce

after : Update → AccountsDb → AccountsDb
after u db = saved (subject u) (changed_to u (account_at (subject u) db)) (entry_of u db) db

finally : List Update → AccountsDb → AccountsDb
finally [] db = db
finally (u ∷ us) db = finally us (after u db)

-- the journal of the changes, the newest entry first
since : List Update → AccountsDb → List JournalEntry
since [] db = []
since (u ∷ us) db = since us (after u db) ++ entry_of u db ∷ []

append_assoc :
    (xs : List JournalEntry) (e : JournalEntry) (ys : List JournalEntry)
    → (xs ++ e ∷ []) ++ ys ≡ xs ++ e ∷ ys
append_assoc [] e ys = refl
append_assoc (x ∷ xs) e ys = ap (λ t. x ∷ t) (append_assoc xs e ys)

entries-finally :
    (us : List Update) (db : AccountsDb) → (finally us db).entries ≡ since us db ++ db.entries
unfolding finally since
entries-finally [] db = refl
entries-finally (u ∷ us) db =
    let e : (after u db).entries ≡ entry_of u db ∷ db.entries = unfold after saved in refl in
    entries-finally us (after u db)
    ∙ ap (λ t. since us (after u db) ++ t) e
    ∙ sym (append_assoc (since us (after u db)) (entry_of u db) db.entries)

and_then_assoc :
    (r : Done) (f g : AccountsDb → Done) (k : AccountsDb → Done)
    → ((d : AccountsDb) → f d ≡ and_then (g d) (λ _ d'. k d'))
    → and_then r (λ _ d. f d) ≡ and_then (and_then r (λ _ d. g d)) (λ _ d'. k d')
unfolding and_then
and_then_assoc (d, done tt) f g k h = h d
and_then_assoc (d, failed e) f g k h = refl

module _ {A : Type 0} where
  take-append_self : (p x : List A) → take (length p) (p ++ x) ≡ p
  take-append_self [] x = refl
  take-append_self (k ∷ p) x = ap (λ t. k ∷ t) (take-append_self p x)

  drop-append_self : (p x : List A) → drop (length p) (p ++ x) ≡ x
  drop-append_self [] x = refl
  drop-append_self (k ∷ p) x = drop-append_self p x

  not_below : (p x : List A) → ltb (length (p ++ x)) (length x) ≡ false
  not_below p x = let e = length-append p x in ground (arith, e)

module _ (s : Storage) (sound : IsSound s) where
  apply_lem : (u : Update) (db : AccountsDb) → apply s u db ≡ (after u db, done tt)
  unfolding apply after subject changed_to entry_of
  apply_lem (balance_to id b) db =
      unfold paid in set_balance_with_journal_lem s sound id (λ _. b) db
  apply_lem (nonce_to id n) db =
      unfold numbered in set_nonce_with_journal_lem s sound id (λ _. n) db

  apply_all_lem :
      (us : List Update) (db : AccountsDb) → apply_all s us db ≡ (finally us db, done tt)
  unfolding apply_all finally and_then
  apply_all_lem [] db = refl
  apply_all_lem (u ∷ us) db = rw (apply_lem u db) (apply_all_lem us (after u db))

  revert_entries-append :
      (xs ys : List JournalEntry) (d : AccountsDb)
      → revert_entries s (xs ++ ys) d
        ≡ and_then (revert_entries s xs d) (λ _ d'. revert_entries s ys d')
  unfolding revert_entries and_then
  revert_entries-append [] ys d = refl
  revert_entries-append (x ∷ xs) ys d =
      and_then_assoc (and_then (revert s x d) (save_reverted s)) (revert_entries s (xs ++ ys))
        (revert_entries s xs) (revert_entries s ys) (revert_entries-append xs ys)

  record Restored (us : List Update) (db d : AccountsDb) : Type 0 where
    state : AccountsDb
    says : revert_entries s (since us db) d ≡ (state, done tt)
    same : SameAs db state

  undo_one :
      (own : ℕ → Bool) (u : Update) (db d : AccountsDb)
      → own (subject u) ≡ true
      → Synced s sound own db
      → SameAs (after u db) d
      → TakenBack s sound (entry_of u db) db d
  unfolding after subject changed_to entry_of
  undo_one own (balance_to id b) db d o y same =
      taken_back s sound id (balance_change id (account_at id db).balance)
        (λ a. record a { balance = (account_at id db).balance }) (λ x. unfold revert in refl)
        (record (account_at id db) { balance = b }) db refl (y.stored id o) d same
  undo_one own (nonce_to id n) db d o y same =
      taken_back s sound id (nonce_change id (account_at id db).nonce)
        (λ a. record a { nonce = (account_at id db).nonce }) (λ x. unfold revert in refl)
        (record (account_at id db) { nonce = n }) db refl (y.stored id o) d same

  after-Synced :
      (own : ℕ → Bool) (u : Update) (db : AccountsDb)
      → own (subject u) ≡ true
      → Synced s sound own db
      → Synced s sound own (after u db)
  unfolding after
  after-Synced own u db o y =
      saved-Synced s sound own (subject u) (changed_to u (account_at (subject u) db))
        (entry_of u db) db o y

  one_entry :
      (e : JournalEntry) (d d' : AccountsDb)
      → and_then (revert s e d) (save_reverted s) ≡ (d', done tt)
      → revert_entries s (e ∷ []) d ≡ (d', done tt)
  unfolding revert_entries and_then
  one_entry e d d' h = rw h refl

  reverted :
      (us : List Update) (db d : AccountsDb)
      → revert_entries s (since us db) (finally us db) ≡ (d, done tt)
      → revert_to_snapshot s (journal_len db) (finally us db)
        ≡ (record d { entries = db.entries }, done tt)
  unfolding revert_to_snapshot journal_len and_then
  reverted us db d h =
      let e = entries-finally us db in
      let t : ltb (length (finally us db).entries) (length db.entries) ≡ false =
        ap (λ es. ltb (length es) (length db.entries)) e ∙ not_below (since us db) db.entries in
      let n : length (since us db ++ db.entries) - length db.entries ≡ length (since us db) =
        omega (arith, length-append (since us db) db.entries) in
      let first : take (length (finally us db).entries - length db.entries) (finally us db).entries
          ≡ since us db =
        ap (λ es. take (length es - length db.entries) es) e
        ∙ ap (λ m. take m (since us db ++ db.entries)) n
        ∙ take-append_self (since us db) db.entries in
      let rest : drop (length (finally us db).entries - length db.entries) (finally us db).entries
          ≡ db.entries =
        ap (λ es. drop (length es - length db.entries) es) e
        ∙ ap (λ m. drop m (since us db ++ db.entries)) n
        ∙ drop-append_self (since us db) db.entries in
      rw (t, first, rest, h) refl

  undo_all :
      (own : ℕ → Bool) (us : List Update) (db d : AccountsDb)
      → All (λ u. own (subject u) ≡ true) us
      → Synced s sound own db
      → SameAs (finally us db) d
      → Restored us db d
  unfolding since finally and_then
  undo_all own [] db d o y same = record {
    state = d;
    says = unfold revert_entries in refl;
    same = same;
  }
  undo_all own (u ∷ us) db d o y same =
      let later = undo_all own us (after u db) d o.1 (after-Synced own u db o.0 y) same in
      let t = undo_one own u db later.state o.0 y later.same in
      record {
        state = t.state;
        says =
            revert_entries-append (since us (after u db)) (entry_of u db ∷ []) d
            ∙ rw later.says (one_entry (entry_of u db) later.state t.state t.says);
        same = t.same;
      }

  -- RevertToSnapshot, with the length that the journal had, after any changes of nonces and balances
  -- through objects that stand for what is stored, no two of them for one address, on a storage that
  -- does not fail, has no error, and restores every stored account and the journal.
  pub revert_to_snapshot-apply_all :
      (own : ℕ → Bool) (us : List Update) (db : AccountsDb)
      → All (λ u. own (subject u) ≡ true) us
      → Synced s sound own db
      → ((revert_to_snapshot s (journal_len db) (apply_all s us db).0).1 ≡ done tt)
        × ((j : Bytes)
            → (revert_to_snapshot s (journal_len db) (apply_all s us db).0).0.accounts j
              ≡ db.accounts j)
        × ((revert_to_snapshot s (journal_len db) (apply_all s us db).0).0.entries ≡ db.entries)
  revert_to_snapshot-apply_all own us db o y =
      let r =
        undo_all own us db (finally us db) o y
          (record { accounts_same = λ j. refl; objects_same = λ k. refl }) in
      rw (apply_all_lem us db, reverted us db r.state r.says) (refl, r.same.accounts_same, refl)
