-- ===== src/Compute/Gas.antt =====
-- Gas and fees (compute/gas.rs).
pub mod Estimate
pub mod Fees
use rabbit_chain_node.Prelude.{
  ℕ, ◌+◌, ◌-◌, ◌*◌, ◌/◌, ◌%◌, ◌^◌, min, max, Bool, true, false, List, [], ◌∷◌, Option, none, some,
  ltb, leb, ◌==◌, if◌then◌else◌, length, contains, sat_add_u64, sat_mul_u64,
}
use rabbit_chain_node.Compute.Types.{
  Hash, Bytes, Script, Metadata, ObjectReadRef, OutputProposal, TxSignature, ComputeTx,
}
use rabbit_chain_node.Compute.Tx.{max_gas_limit_per_tx}
use rabbit_chain_node.Compute.Tx.Preimage.{as_bytes}

abbrev pub tx_base_gas : ℕ
tx_base_gas = 21_000

abbrev pub tx_calldata_zero_gas : ℕ
tx_calldata_zero_gas = 4

abbrev pub tx_calldata_nonzero_gas : ℕ
tx_calldata_nonzero_gas = 16

abbrev pub command_gas : ℕ
command_gas = 5_000

abbrev pub cold_access_gas : ℕ
cold_access_gas = 2_100

abbrev pub warm_access_gas : ℕ
warm_access_gas = 100

abbrev pub ed25519_verify_gas : ℕ
ed25519_verify_gas = 3_000

abbrev pub output_create_gas : ℕ
output_create_gas = 25_000

abbrev pub output_read_cold_gas : ℕ
output_read_cold_gas = 2_100

abbrev pub base_fee_max_change_denominator : ℕ
base_fee_max_change_denominator = 8

abbrev pub target_gas_fraction : ℕ
target_gas_fraction = 2

abbrev pub max_priority_fee : ℕ
max_priority_fee = 1_000_000

-- `gas.saturating_add((len as u64).saturating_mul(TX_CALLDATA_NONZERO_GAS))`
abbrev pub add_bytes : ℕ → ℕ → ℕ
add_bytes gas len = sat_add_u64 gas (sat_mul_u64 len tx_calldata_nonzero_gas)

-- The loops of `estimate_tx_gas`, each from the gas so far to the gas after it.
unfoldable pub payload_gas : Bytes → ℕ → ℕ
payload_gas [] gas = gas
payload_gas (b ∷ bs) gas =
    payload_gas bs
      (sat_add_u64 gas (if b == 0 then tx_calldata_zero_gas else tx_calldata_nonzero_gas))

-- `seen` holds the outputs that were read; its order is of no account.
unfoldable pub reads_gas : List Hash → List ObjectReadRef → ℕ → ℕ
reads_gas seen [] gas = gas
reads_gas seen (r ∷ rs) gas =
    let warm = reads_gas seen rs (sat_add_u64 gas warm_access_gas) in
    let cold = reads_gas (r.output_id ∷ seen) rs (sat_add_u64 gas cold_access_gas) in
    if contains seen r.output_id then warm else cold

unfoldable pub inputs_gas : List Hash → ℕ → ℕ
inputs_gas [] gas = gas
inputs_gas (_ ∷ ids) gas = inputs_gas ids (sat_add_u64 gas output_read_cold_gas)

abbrev pub add_logic : Option Script → ℕ → ℕ
add_logic none gas = gas
add_logic (some logic) gas = add_bytes gas (length logic.code)

unfoldable pub proposals_gas : List OutputProposal → ℕ → ℕ
proposals_gas [] gas = gas
proposals_gas (p ∷ ps) gas = proposals_gas ps (
    add_logic p.logic (
      add_bytes (add_bytes (sat_add_u64 gas output_create_gas) (length p.state))
        (length p.lock.code)))

unfoldable pub signatures_gas : List TxSignature → ℕ → ℕ
signatures_gas [] gas = gas
signatures_gas (_ ∷ sigs) gas = signatures_gas sigs (sat_add_u64 gas ed25519_verify_gas)

unfoldable pub metadata_gas : Metadata → ℕ → ℕ
metadata_gas [] gas = gas
metadata_gas ((key, value) ∷ m) gas =
    metadata_gas m (add_bytes (add_bytes gas (length (as_bytes key))) (length value))

unfoldable pub estimate_tx_gas : ComputeTx → ℕ
estimate_tx_gas tx = metadata_gas tx.metadata (
    signatures_gas tx.witness.signatures (
      sat_add_u64
        (proposals_gas tx.output_proposals
          (inputs_gas tx.input_set (reads_gas [] tx.read_set (payload_gas tx.payload tx_base_gas))))
        command_gas))

-- `none` stands for the panic of a division by zero: a parent gas limit below 2 with gas used.
unfoldable pub calculate_base_fee : ℕ → ℕ → ℕ → Option ℕ
calculate_base_fee parent_base_fee parent_gas_used parent_gas_limit =
    let target_gas = parent_gas_limit / target_gas_fraction in
    if parent_gas_used == target_gas
    then some parent_base_fee
    else (let delta = max (parent_gas_used - target_gas) (target_gas - parent_gas_used) in
        let numerator = parent_base_fee * delta in
        let denominator = target_gas * base_fee_max_change_denominator in
        if denominator == 0
        then none
        else (let change = numerator / denominator % 2 ^ 64 in
            if ltb target_gas parent_gas_used
            then some (sat_add_u64 parent_base_fee (max change 1))
            else some (parent_base_fee - change)))

pub data FeeValidationError : Type 0 where
  gas_limit_too_low : ℕ → ℕ → FeeValidationError
  gas_limit_too_high : ℕ → ℕ → FeeValidationError
  priority_fee_too_high : ℕ → ℕ → FeeValidationError
  max_fee_too_low : ℕ → ℕ → ℕ → ℕ → FeeValidationError

-- `Result<(), FeeValidationError>`: the error, if there is one.
unfoldable pub validate_tx_fee : ComputeTx → ℕ → Option FeeValidationError
validate_tx_fee tx base_fee =
    let estimated = estimate_tx_gas tx in
    if ltb tx.gas_limit estimated
    then some (gas_limit_too_low tx.gas_limit estimated)
    else (if ltb max_gas_limit_per_tx tx.gas_limit
        then some (gas_limit_too_high tx.gas_limit max_gas_limit_per_tx)
        else (if ltb max_priority_fee tx.priority_fee
            then some (priority_fee_too_high tx.priority_fee max_priority_fee)
            else (let min_total = sat_add_u64 base_fee tx.priority_fee in
                if ltb tx.max_fee min_total
                then some (max_fee_too_low tx.max_fee min_total base_fee tx.priority_fee)
                else none)))

unfoldable pub effective_tip : ComputeTx → ℕ → ℕ
effective_tip tx base_fee = min tx.priority_fee (tx.max_fee - base_fee)

unfoldable pub effective_tip_rate : ComputeTx → ℕ → ℕ
effective_tip_rate tx base_fee = effective_tip tx base_fee / max (estimate_tx_gas tx) 1
