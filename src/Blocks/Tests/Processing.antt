-- ===== src/Blocks/Tests/Processing.antt =====
-- A block whose transactions change an account and then fail.
use elrond_go.Prelude.{ℕ, none, some, List, [], ◌∷◌}
use elrond_go.Prelude.Int.{pos}
use elrond_go.Accounts.Snapshot.{Update, balance_to, nonce_to, apply_all}
use elrond_go.Accounts.Tests.{storage, one_account}
use elrond_go.Blocks.Types.{external, ok}
use elrond_go.Blocks.Validity.{Chain}
use elrond_go.Blocks.Process.{World, Components, Settings}
use elrond_go.Blocks.Tests.{notarized}

-- the transactions take 100 from the account and raise its nonce, and then one of them fails
abbrev changes : List Update
changes = balance_to 0 (pos 900) ∷ nonce_to 0 5 ∷ []

abbrev pub components : Components ℕ
components = record {
  set_shard_consensus_data = λ h r. (r, none);
  clear_meta_consensus_data = λ r. r;
  set_meta_consensus_data = λ h r. (r, none);
  coordinator_started = λ r. r;
  set_current_header = λ h r. r;
  request_block_transactions = λ body r. r;
  is_data_prepared_for_processing = λ r. (r, none);
  process_block_transaction =
      λ body round db r. ((apply_all storage changes db).0, r, some (external 3));
  verify_created_block_transactions = λ body r. (r, none);
  root_hash = λ db. none;
  update_peer_state = λ h r. (r, ok []);
  peer_root_hash = λ r. [];
  revert_peer_state = λ r. r;
}

abbrev pub settings : Settings
settings = record { self_id = 0; number_of_shards = 2; meta_block_finality = 1; allowed_size = 100 }

abbrev pub world : World ℕ
world = record {
  db = one_account;
  shard = record {
    current = record {
      missing_hdrs = 0;
      missing_finality_attesting_hdrs = 0;
      highest_hdr_nonce = [];
      hdr_hash_and_info = [];
    };
    pool = record { meta_blocks = []; headers_nonces = [] };
    last_hdrs = [];
    notarized_hdrs = notarized;
    processed_mini_blocks = [];
  };
  rest = 0;
}

abbrev chain : Chain
chain = record { current_block_header = none; genesis_header_hash = 0 ∷ 4 ∷ [] }
