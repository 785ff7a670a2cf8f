-- ===== src/State/Payments.antt =====
-- The fee of a transaction and the effects of transfers and enhancements (state/executor.rs): the check
-- that comes before the execution, and the commit that comes after it.
use rabbit_chain_node.Prelude.{
  ℕ, ◌%◌, ◌^◌, min, List, [], ◌∷◌, Option, none, some, ltb, ◌==◌, ◌&&◌, if◌then◌else◌, length, zero,
  suc,
}
use rabbit_chain_node.Compute.Types.{Hash, Address, Text, Bytes, ComputeTx}
use rabbit_chain_node.Compute.Tx.{is_invoke, is_mint}
use rabbit_chain_node.Compute.Store.{get_latest_output_by_object}
use rabbit_chain_node.Compute.Policy.Authorization.{from_be_bytes}
use rabbit_chain_node.State.{
  get_account, get_token_balance, native_token, shc_token, balance_or_zero,
}
use rabbit_chain_node.State.Executor.{
  game_domain, GameOp, invalid_address_hex, address_length, enhance_config_not_found,
  invalid_enhance_config, ExecutionError, transfer_signer, enhance_signer, native_transfer,
  insufficient_for_gas, insufficient_for_transfer, insufficient_for_enhance,
  insufficient_for_token_transfer, Result, ok, err, ◌>>=◌, required, refuse_if, StateExecutor,
  ed25519_signer_address, tx_gas_fee,
}
use rabbit_chain_node.State.Executor.Money.{
  debit_account, credit_token, credit_treasury, credit_treasury_token, with_db, take_token,
}
use rabbit_chain_node.State.Game.{Libraries, strip_0x}

-- `cost_sh[current_level.min(11)]`: the array has 12 entries.
abbrev pub level_cost : List ℕ → ℕ → ℕ
level_cost [] level = 0
level_cost (c ∷ cs) zero = c
level_cost (c ∷ cs) (suc level) = level_cost cs level

-- "shanhai/config/enhance"
abbrev enhance_config_name : Bytes
enhance_config_name =
    b's' ∷ b'h' ∷ b'a' ∷ b'n' ∷ b'h' ∷ b'a' ∷ b'i' ∷ b'/' ∷ b'c' ∷ b'o' ∷ b'n' ∷ b'f' ∷ b'i' ∷ b'g'
    ∷ b'/' ∷ b'e' ∷ b'n' ∷ b'h' ∷ b'a' ∷ b'n' ∷ b'c' ∷ b'e' ∷ []

module _ {V T M P : Type 0} (lib : Libraries V T M P) where
  unfoldable pub parse_address_hex : Text → Result Address
  parse_address_hex raw = elim (lib.decode_hex (strip_0x (lib.trim raw))) [
    | none ↦ err (invalid_address_hex raw)
    | some bytes ↦ if length bytes == 20 then ok (from_be_bytes 0 bytes) else err address_length
  ]

  -- The operation of a transaction that invokes the game domain. Every effect starts with this test; a
  -- payload that does not parse is left to the ordinary execution.
  unfoldable pub game_op : ComputeTx → Option (GameOp V)
  game_op tx =
      if tx.domain_id == game_domain && is_invoke tx.command then lib.parse_op tx.payload else none

  abbrev pub enhance_config_object_id : Hash
  enhance_config_object_id = from_be_bytes 0 (lib.keccak256 enhance_config_name)

  unfoldable pub enhance_cost : ℕ → StateExecutor V → Result ℕ
  enhance_cost current_level x =
      elim (get_latest_output_by_object enhance_config_object_id x.compute_store) [
        | none ↦ err enhance_config_not_found
        | some obj ↦ elim (lib.parse_enhance_config obj.state) [
          | none ↦ err (invalid_enhance_config obj.state)
          | some config ↦ ok (level_cost config.cost_sh (min current_level 11))
        ]
      ]

  unfoldable pub payer_of : ExecutionError → ComputeTx → Result Address
  payer_of failure tx = required (ed25519_signer_address lib.keccak256 tx) failure

  unfoldable pub apply_fee_effects : ComputeTx → ℕ → StateExecutor V → Result (Unit {0})
  apply_fee_effects tx base_fee x =
      let fee = tx_gas_fee tx base_fee in
      if is_mint tx.command
      then ok tt
      else (if fee == 0 then ok tt else (elim (ed25519_signer_address lib.keccak256 tx) [
        | none ↦ ok tt
        | some payer ↦
            let balance = balance_or_zero (get_account payer x.state_db) % 2 ^ 64 in
            if ltb balance fee then err (insufficient_for_gas balance fee) else ok tt
      ]))

  unfoldable pub commit_fee_effects :
      ComputeTx → ℕ → StateExecutor V → Result (Unit {0}) × StateExecutor V
  commit_fee_effects tx base_fee x =
      let fee = tx_gas_fee tx base_fee in
      if is_mint tx.command
      then (ok tt, x)
      else (if fee == 0 then (ok tt, x) else (elim (ed25519_signer_address lib.keccak256 tx) [
        | none ↦ (ok tt, x)
        | some payer ↦
            let (debited, db) = debit_account payer fee x.state_db in
            elim debited [
              | err failure ↦ (err failure, with_db db x)
              | ok _ ↦ (ok tt, credit_treasury fee (with_db db x))
            ]
      ]))

  -- The payer's low 64 bits of a token must cover the amount.
  unfoldable pub covered :
      (ℕ → ExecutionError) → Address → ℕ → ℕ → StateExecutor V → Result (Unit {0})
  covered failure payer token amount x =
      let balance = get_token_balance payer token x.state_db % 2 ^ 64 in
      refuse_if (ltb balance amount) (failure balance)

  unfoldable pub check_enhance : ComputeTx → ℕ → StateExecutor V → Result (Unit {0})
  check_enhance tx level x = enhance_cost level x >>= λ cost.
      payer_of enhance_signer tx >>= λ payer.
      covered (λ balance. insufficient_for_enhance balance cost) payer shc_token cost x

  unfoldable pub economy_check : ComputeTx → GameOp V → StateExecutor V → Result (Unit {0})
  economy_check tx (GameOp.transfer_token token to amount) x =
      payer_of transfer_signer tx >>= λ payer.
      refuse_if (token == native_token) native_transfer >>= λ _.
      covered (λ balance. insufficient_for_token_transfer token balance amount) payer token amount x
  economy_check tx (GameOp.transfer_coin to amount) x = payer_of transfer_signer tx >>= λ payer.
      covered (λ balance. insufficient_for_transfer balance amount) payer shc_token amount x
  economy_check tx (GameOp.enhance level) x = check_enhance tx level x
  economy_check tx (GameOp.zk_enhance level) x = check_enhance tx level x
  economy_check tx op x = ok tt

  unfoldable pub apply_economy_effects : ComputeTx → StateExecutor V → Result (Unit {0})
  apply_economy_effects tx x = elim (game_op tx) [ none ↦ ok tt | some op ↦ economy_check tx op x ]

  -- A debit of the payer and, where it succeeds, a credit of the receiver.
  unfoldable pub move_token :
      Address → Address → ℕ → ℕ → StateExecutor V → Result (Unit {0}) × StateExecutor V
  move_token payer target token amount x =
      let (debited, x') = take_token payer token amount x in
      elim debited [
        | err failure ↦ (err failure, x')
        | ok _ ↦ (ok tt, with_db (credit_token target token amount x'.state_db) x')
      ]

  unfoldable pub commit_transfer :
      Result Address → Text → ℕ → ℕ → StateExecutor V → Result (Unit {0}) × StateExecutor V
  commit_transfer (err failure) to token amount x = (err failure, x)
  commit_transfer (ok payer) to token amount x = elim (parse_address_hex to) [
    | err failure ↦ (err failure, x)
    | ok target ↦ move_token payer target token amount x
  ]

  unfoldable pub commit_enhance :
      Result (ℕ × Address) → StateExecutor V → Result (Unit {0}) × StateExecutor V
  commit_enhance (err failure) x = (err failure, x)
  commit_enhance (ok (cost, payer)) x =
      let (debited, x') = take_token payer shc_token cost x in
      elim debited [
        | err failure ↦ (err failure, x')
        | ok _ ↦ (ok tt, credit_treasury_token shc_token cost x')
      ]

  abbrev pub cost_and_payer : ComputeTx → ℕ → StateExecutor V → Result (ℕ × Address)
  cost_and_payer tx level x =
      enhance_cost level x >>= λ cost. payer_of enhance_signer tx >>= λ payer. ok (cost, payer)

  unfoldable pub economy_commit :
      ComputeTx → GameOp V → StateExecutor V → Result (Unit {0}) × StateExecutor V
  economy_commit tx (GameOp.transfer_token token to amount) x =
      commit_transfer
        (payer_of transfer_signer tx >>= λ payer.
          refuse_if (token == native_token) native_transfer >>= λ _. ok payer)
        to token amount x
  economy_commit tx (GameOp.transfer_coin to amount) x =
      commit_transfer (payer_of transfer_signer tx) to shc_token amount x
  economy_commit tx (GameOp.enhance level) x = commit_enhance (cost_and_payer tx level x) x
  economy_commit tx (GameOp.zk_enhance level) x = commit_enhance (cost_and_payer tx level x) x
  economy_commit tx op x = (ok tt, x)

  unfoldable pub commit_economy_effects :
      ComputeTx → StateExecutor V → Result (Unit {0}) × StateExecutor V
  commit_economy_effects tx x = elim (game_op tx) [
    | none ↦ (ok tt, x)
    | some op ↦ economy_commit tx op x
  ]
