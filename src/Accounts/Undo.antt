-- ===== src/Accounts/Undo.antt =====
-- RevertToSnapshot against the changes of the journal: what it takes back.
use elrond_go.Prelude.{
  ℕ, ◌≡◌, refl, sym, ap, ◌∙◌, inl, inr, Bool, true, false, some, ◌==◌, ==_iff, Bool-cases,
}
use elrond_go.Prelude.Bytes.{Bytes, bytes_eq, bytes_eq_iff}
use elrond_go.Accounts.Types.{
  Account, Object, JournalEntry, AccountsDb, done, and_then, Storage, account_at, store_at,
  object_at,
}
use elrond_go.Accounts.Store.{assign, save_account, save_object, revert, save_reverted}
use elrond_go.Accounts.Changes.{
  IsSound, address_of, saved, account_at-saved, address_of-saved, accounts-saved, object_at-hit,
  object_at-miss, self_eq, save_object_lem,
}

-- the same objects and the same stored accounts
pub record SameAs (db d : AccountsDb) : Type 0 where
  pub accounts_same : (j : Bytes) → d.accounts j ≡ db.accounts j
  pub objects_same : (k : ℕ) → d.objects k ≡ db.objects k

-- an object with another account, saved
unfoldable put_back : ℕ → Account → AccountsDb → AccountsDb
put_back id a d = record d {
  accounts = store_at (d.objects id).address (some a) d.accounts;
  objects = object_at id (record (d.objects id) { account = a }) d.objects;
}

module _ (s : Storage) (sound : IsSound s) where
  save_account-put_back :
      (id : ℕ) (a : Account) (d : AccountsDb)
      → save_account s id (assign id a d) ≡ (put_back id a d, done tt)
  unfolding save_account assign put_back
  save_account-put_back id a d =
      let o : Object = record (d.objects id) { account = a } in
      ap (λ x. save_object s x (assign id a d)) (object_at-hit id id o d.objects (self_eq id))
      ∙ save_object_lem s sound o (assign id a d)

  -- what taking back one entry comes to
  pub record TakenBack (e : JournalEntry) (db d : AccountsDb) : Type 0 where
    pub state : AccountsDb
    pub says : and_then (revert s e d) (save_reverted s) ≡ (state, done tt)
    pub same : SameAs db state

  module _ (id : ℕ) (e : JournalEntry) (undo : Account → Account)
      (reverts : (d : AccountsDb)
        → revert s e d ≡ (assign id (undo (account_at id d)) d, done (some id)))
      (a' : Account) (db : AccountsDb) (back : undo a' ≡ account_at id db)
      (sync : db.accounts (address_of id db) ≡ some (account_at id db)) where
    module _ (d : AccountsDb) (same : SameAs (saved id a' e db) d) where
      object_there : d.objects id ≡ record (db.objects id) { account = a' }
      object_there =
          same.objects_same id
          ∙ (unfold saved in
              object_at-hit id id (record (db.objects id) { account = a' }) db.objects (self_eq id))

      account_there : undo (account_at id d) ≡ account_at id db
      account_there =
          let e : undo (account_at id d) ≡ undo a' =
            unfold account_at in ap (λ o. undo o.account) object_there in
          e ∙ back

      objects_back : (k : ℕ) → (put_back id (undo (account_at id d)) d).objects k ≡ db.objects k
      unfolding put_back
      objects_back k =
          let o : Object = record (d.objects id) { account = undo (account_at id d) } in
          let e : o ≡ db.objects id =
            rw (account_there, object_there) (unfold account_at in refl) in
          elim (Bool-cases (k == id)) [
            | inl t ↦
                object_at-hit k id o d.objects t
                ∙ e
                ∙ ap (λ n. db.objects n) (sym ((==_iff k id).0 t))
            | inr t ↦
                object_at-miss k id o d.objects t
                ∙ same.objects_same k
                ∙ (unfold saved in
                    object_at-miss k id (record (db.objects id) { account = a' }) db.objects t)
          ]

      address_there : (d.objects id).address ≡ address_of id db
      address_there = ap (λ o. o.address) object_there

      accounts_back :
          (j : Bytes) → (put_back id (undo (account_at id d)) d).accounts j ≡ db.accounts j
      unfolding put_back store_at
      accounts_back j =
          rw (address_there, account_there)
            (elim (Bool-cases (bytes_eq j (address_of id db))) [
              | inl t ↦ rw (t, (bytes_eq_iff j (address_of id db)).0 t) (sym sync)
              | inr t ↦ rw (t, same.accounts_same j, accounts-saved j id a' e db, t) refl
            ])

      pub taken_back : TakenBack e db d
      taken_back = record {
        state = put_back id (undo (account_at id d)) d;
        says =
            unfold and_then save_reverted in
            rw (reverts d, save_account-put_back id (undo (account_at id d)) d) refl;
        same = record { accounts_same = accounts_back; objects_same = objects_back };
      }

  -- the changes of the journal, by the objects that the caller holds ------------------------------

  -- every object stands for what is stored, and no two for one address
  pub record Synced (own : ℕ → Bool) (db : AccountsDb) : Type 0 where
    pub stored : (k : ℕ) → own k ≡ true → db.accounts (address_of k db) ≡ some (account_at k db)
    pub single :
        (i k : ℕ)
        → own i ≡ true
        → own k ≡ true
        → bytes_eq (address_of i db) (address_of k db) ≡ true
        → i ≡ k

  pub saved-Synced :
      (own : ℕ → Bool) (id : ℕ) (a : Account) (e : JournalEntry) (db : AccountsDb)
      → own id ≡ true
      → Synced own db
      → Synced own (saved id a e db)
  saved-Synced own id a e db o y = record {
    stored = λ k ok.
        rw
          (
            address_of-saved k id a e db,
            accounts-saved (address_of k db) id a e db,
            account_at-saved k id a e db,
          )
          (elim (Bool-cases (k == id)) [
            | inl t ↦
                let p : k ≡ id = (==_iff k id).0 t in
                rw (p, (bytes_eq_iff (address_of id db) (address_of id db)).1 refl, self_eq id) refl
            | inr t ↦ elim (Bool-cases (bytes_eq (address_of k db) (address_of id db))) [
              | inl u ↦
                  let w : (k == id) ≡ true = (==_iff k id).1 (y.single k id ok o u) in
                  let f : true ≡ false = rw w at t in cc
              | inr u ↦ rw (t, u) (y.stored k ok)
            ]
          ]);
    single = λ i k oi ok h.
        y.single i k oi ok (rw (address_of-saved i id a e db, address_of-saved k id a e db) at h);
  }
