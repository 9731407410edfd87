-- ===== src/Accounts/Tests.antt =====
-- A journal with three changes, taken back.
use elrond_go.Prelude.{ℕ, ◌≡◌, refl, Bool, none, some, List, [], ◌∷◌, arith, ◌==◌}
use elrond_go.Prelude.Bytes.{Bytes}
use elrond_go.Prelude.Int.{pos}
use elrond_go.Accounts.Types.{Account, AccountsDb, done, Storage, account_at}
use elrond_go.Accounts.Store.{revert_to_snapshot, journal_len}
use elrond_go.Accounts.Changes.{IsSound}
use elrond_go.Accounts.Undo.{Synced}
use elrond_go.Accounts.Snapshot.{
  Update, balance_to, nonce_to, subject, apply_all, revert_to_snapshot-apply_all,
}

abbrev pub storage : Storage
storage = record {
  fetch_error = λ key. none;
  save_error = λ key a. none;
  remove_error = λ key. none;
  load_error_of = λ a. none;
}

pub storage-IsSound : IsSound storage
storage-IsSound = record {
  fetches = λ key. refl;
  saves = λ key a. refl;
  removes = λ key. refl;
  loads = λ a. refl;
}

abbrev pub rich : Account
rich = record { nonce = 4; balance = pos 1000; code_hash = []; root_hash = [] }

-- one account, and the objects all stand for it; only the first is in use
abbrev pub one_account : AccountsDb
one_account = record {
  accounts = λ j. some rich;
  objects = λ k. record { address = 7 ∷ []; account = rich };
  next = 1;
  entries = [];
  fees = [];
}

abbrev pub first_only : ℕ → Bool
first_only k = k == 0

pub one_account-Synced : Synced storage storage-IsSound first_only one_account
one_account-Synced = record {
  stored = λ k h. unfold account_at in refl;
  single = λ i k hi hk e. ground (arith, hi, hk);
}

abbrev updates : List Update
updates = balance_to 0 (pos 900) ∷ nonce_to 0 5 ∷ balance_to 0 (pos 10) ∷ []

revert_to_snapshot-apply_all_example :
    ((revert_to_snapshot storage
        (journal_len one_account)
        (apply_all storage updates one_account).0).1
      ≡ done tt)
    × ((j : Bytes)
        → (revert_to_snapshot storage
              (journal_len one_account)
              (apply_all storage updates one_account).0).0.accounts
            j
          ≡ one_account.accounts j)
    × ((revert_to_snapshot storage
          (journal_len one_account)
          (apply_all storage updates one_account).0).0.entries
        ≡ one_account.entries)
revert_to_snapshot-apply_all_example =
    revert_to_snapshot-apply_all storage storage-IsSound first_only updates one_account
      (unfold subject in (refl, (refl, (refl, tt)))) one_account-Synced
