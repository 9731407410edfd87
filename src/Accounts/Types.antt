-- ===== src/Accounts/Types.antt =====
-- The accounts of account.go, the journal entries, and the state of AccountsDB. Go shares accounts
-- by pointer: an object here has a number, and two objects can have the same address.
use elrond_go.Prelude.{ℕ, Option, List, [], ◌==◌, if◌then◌else◌}
use elrond_go.Prelude.Bytes.{Bytes, bytes_eq}
use elrond_go.Prelude.Int.{ℤ, pos}

pub record Account : Type 0 where
  pub nonce : ℕ
  pub balance : ℤ
  pub code_hash : Bytes
  pub root_hash : Bytes

pub record Object : Type 0 where
  pub address : Bytes
  pub account : Account

-- BaseJournalEntryCreation, JournalEntryBalance and BaseJournalEntryNonce
pub data JournalEntry : Type 0 where
  creation : Bytes → JournalEntry
  balance_change : ℕ → ℤ → JournalEntry
  nonce_change : ℕ → ℕ → JournalEntry

-- what is stored under each address, the objects in memory with the number of the next one, the
-- journal with the newest entry first, and the fees that the fee handler was given
pub record AccountsDb : Type 0 where
  pub accounts : Bytes → Option Account
  pub objects : ℕ → Object
  pub next : ℕ
  pub entries : List JournalEntry
  pub fees : List ℤ

pub data Failure : Type 0 where
  nil_transaction nil_or_empty_key higher_nonce lower_nonce insufficient_funds wrong_transaction :
      Failure
  insufficient_gas_price insufficient_gas_limit higher_gas_limit_required : Failure
  nil_reward_transaction : Failure
  -- of the trie, the marshalizer, or another component
  external : ℕ → Failure

pub data Reply {ℓ} (A : Type ℓ) : Type ℓ where
  done : A → Reply A
  failed : Failure → Reply A

abbrev pub Out {ℓ} : Type ℓ → Type ℓ
Out A = AccountsDb × Reply A

-- of a method that returns an error at most
abbrev pub Done : Type 0
Done = Out (Unit {0})

-- the rest of a method behind `if err != nil { return err }`
unfoldable pub and_then {ℓ ℓ'} :
    {A : Type ℓ} {B : Type ℓ'} → Out A → (A → AccountsDb → Out B) → Out B
and_then (db, done a) k = k a db
and_then (db, failed e) k = (db, failed e)

-- when the trie and the marshalizer fail: to read an address, to save an account, to remove an
-- address, and to load the code and the data of an account
pub record Storage : Type 0 where
  pub fetch_error : Bytes → Option Failure
  pub save_error : Bytes → Account → Option Failure
  pub remove_error : Bytes → Option Failure
  pub load_error_of : Account → Option Failure

unfoldable pub empty_account : Account
empty_account = record { nonce = 0; balance = pos 0; code_hash = []; root_hash = [] }

unfoldable pub account_at : ℕ → AccountsDb → Account
account_at id db = (db.objects id).account

-- a map with another value at one address
unfoldable pub store_at : Bytes → Option Account → (Bytes → Option Account) → Bytes → Option Account
store_at key a f j = if bytes_eq j key then a else f j

unfoldable pub object_at : ℕ → Object → (ℕ → Object) → ℕ → Object
object_at id o f j = if j == id then o else f j
