-- ===== src/Transactions/Economics.antt =====
-- The fees of economicsData.go.
use elrond_go.Prelude.{ℕ, ◌+◌, ◌*◌, ◌%◌, Option, none, some, ltb, if◌then◌else◌, length}
use elrond_go.Prelude.Bytes.{Bytes}
use elrond_go.Prelude.Int.{ℤ, pos, two64}
use elrond_go.Accounts.Types.{
  Failure, insufficient_gas_price, insufficient_gas_limit, higher_gas_limit_required,
}

pub record Transaction : Type 0 where
  pub nonce : ℕ
  pub value : ℤ
  pub rcv_addr : Bytes
  pub snd_addr : Bytes
  pub gas_price : ℕ
  pub gas_limit : ℕ
  pub tx_data : Bytes

pub record EconomicsData : Type 0 where
  pub min_gas_price : ℕ
  pub min_gas_limit : ℕ
  pub max_gas_limit_per_block : ℕ

unfoldable pub compute_gas_limit : EconomicsData → Transaction → ℕ
compute_gas_limit ed tx = (ed.min_gas_limit + length tx.tx_data) % two64

unfoldable pub compute_fee : EconomicsData → Transaction → ℤ
unfolding compute_gas_limit
compute_fee ed tx = pos (tx.gas_price * compute_gas_limit ed tx)

unfoldable pub check_validity_tx_values : EconomicsData → Transaction → Option Failure
unfolding compute_gas_limit
check_validity_tx_values ed tx =
    let required = compute_gas_limit ed tx in
    if ltb tx.gas_price ed.min_gas_price
    then some insufficient_gas_price
    else if ltb tx.gas_limit required
    then some insufficient_gas_limit
    else if ltb ed.max_gas_limit_per_block required
    then some higher_gas_limit_required
    else none
