-- ===== src/Blocks/Failed.antt =====
-- ProcessBlock on a block that fails, over the journal of the accounts.
use elrond_go.Prelude.{ℕ, ◌≡◌, Bool, true, List}
use elrond_go.Prelude.Bytes.{Bytes}
use elrond_go.Prelude.Maps.{All}
use elrond_go.Accounts.Types.{AccountsDb, Storage}
use elrond_go.Accounts.Changes.{IsSound}
use elrond_go.Accounts.Snapshot.{Update, subject, apply_all}
use elrond_go.Blocks.Types.{MiniBlock, Codec}
use elrond_go.Blocks.Process.{Components, Settings}
use elrond_go.Blocks.Keeps.{Keeps}

-- the same accounts, and the same journal
pub record Kept (before after : AccountsDb) : Type 0 where
  pub accounts : (j : Bytes) → after.accounts j ≡ before.accounts j
  pub entries : after.entries ≡ before.entries

module _ {R : Type 0} where
  module _ (p : Components R) (s : Storage) (c : Codec) (env : Settings) where
    -- The transactions of a block change the accounts through the calls of the journal.
    module _ (sound : IsSound s) (own : ℕ → Bool)
        (acts : (body : List MiniBlock) (round : ℕ) (db : AccountsDb) (r : R)
          → (us : List Update) × All (λ u. own (subject u) ≡ true) us
            × ((p.process_block_transaction body round db r).0 ≡ (apply_all s us db).0)) where
      -- the accounts after some changes of the journal
      record Changed (before after : AccountsDb) : Type 0 where
        updates : List Update
        owned : All (λ u. own (subject u) ≡ true) updates
        same : after ≡ (apply_all s updates before).0
