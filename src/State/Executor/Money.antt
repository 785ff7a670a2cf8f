-- ===== src/State/Executor/Money.antt =====
-- The executor's moves of money (state/executor.rs): accounts, tokens and the treasury.
use rabbit_chain_node.Prelude.{
  ℕ, ◌-◌, ◌%◌, ◌^◌, [], ◌∷◌, Option, none, some, ltb, ◌==◌, if◌then◌else◌,
}
use rabbit_chain_node.Compute.Types.{Address, Text}
use rabbit_chain_node.Governance.{record_income}
use rabbit_chain_node.State.{
  StateDb, Account, default_account, get_account, insert_account, get_token_balance,
  set_token_balance, sat_add_u256, native_token, shc_token,
}
use rabbit_chain_node.State.Executor.{
  StateExecutor, insufficient_balance, insufficient_token, Result, ok, err,
}

-- `get_account(..).unwrap_or_default()`
unfoldable pub account_or_default : Option Account → Account
account_or_default none = default_account
account_or_default (some account) = account

unfoldable pub credit_account : Address → ℕ → StateDb → StateDb
credit_account address amount db =
    let account = account_or_default (get_account address db) in
    insert_account address (record account { balance = sat_add_u256 account.balance amount }) db

unfoldable pub debit_account : Address → ℕ → StateDb → Result (Unit {0}) × StateDb
debit_account address amount db =
    let account = account_or_default (get_account address db) in
    if ltb account.balance amount
    then (err (insufficient_balance account.balance amount), db)
    else (ok tt, insert_account address (record account { balance = account.balance - amount }) db)

unfoldable pub credit_token : Address → ℕ → ℕ → StateDb → StateDb
credit_token address token amount db =
    if token == native_token
    then credit_account address amount db
    else (let balance = get_token_balance address token db in
        set_token_balance address token (sat_add_u256 balance amount) db)

unfoldable pub debit_token : Address → ℕ → ℕ → StateDb → Result (Unit {0}) × StateDb
debit_token address token amount db =
    if token == native_token
    then debit_account address amount db
    else (let balance = get_token_balance address token db in
        if ltb balance amount
        then (err (insufficient_token balance amount), db)
        else (ok tt, set_token_balance address token (balance - amount) db))

-- "block_gas_fee" and "shc_enhance_cost"
abbrev pub block_gas_fee : Text
block_gas_fee =
    b'b' ∷ b'l' ∷ b'o' ∷ b'c' ∷ b'k' ∷ b'_' ∷ b'g' ∷ b'a' ∷ b's' ∷ b'_' ∷ b'f' ∷ b'e' ∷ b'e' ∷ []

abbrev pub shc_enhance_cost : Text
shc_enhance_cost =
    b's' ∷ b'h' ∷ b'c' ∷ b'_' ∷ b'e' ∷ b'n' ∷ b'h' ∷ b'a' ∷ b'n' ∷ b'c' ∷ b'e' ∷ b'_' ∷ b'c' ∷ b'o'
    ∷ b's' ∷ b't' ∷ []

module _ {V : Type 0} where
  -- The executor with a new state database.
  abbrev pub with_db : StateDb → StateExecutor V → StateExecutor V
  with_db db x = record x { state_db = db }

  -- A debit, in the executor.
  abbrev pub take_token : Address → ℕ → ℕ → StateExecutor V → Result (Unit {0}) × StateExecutor V
  take_token address token amount x =
      let (r, db) = debit_token address token amount x.state_db in (r, with_db db x)

  unfoldable pub credit_treasury : ℕ → StateExecutor V → StateExecutor V
  credit_treasury fee x = record x {
    state_db = credit_account x.treasury fee x.state_db;
    ledger = record_income block_gas_fee fee x.ledger;
  }

  unfoldable pub credit_treasury_token : ℕ → ℕ → StateExecutor V → StateExecutor V
  credit_treasury_token token amount x = record x {
    state_db = credit_token x.treasury token amount x.state_db;
    ledger = record_income shc_enhance_cost amount x.ledger;
  }

  unfoldable pub debit_treasury : ℕ → StateExecutor V → Result (Unit {0}) × StateExecutor V
  debit_treasury amount x = take_token x.treasury shc_token amount x

  -- `as_u128` of the treasury's SHC
  unfoldable pub treasury_balance : StateExecutor V → ℕ
  treasury_balance x = get_token_balance x.treasury shc_token x.state_db % 2 ^ 128
