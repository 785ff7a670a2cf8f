-- ===== src/Compute/Tests/GasRuns.antt =====
-- Runs of the gas estimate and of the fee market.
use rabbit_chain_node.Prelude.{ℕ, ◌≡◌, refl, min, none, some, u64_max}
use rabbit_chain_node.Compute.Types.{ComputeTx}
use rabbit_chain_node.Compute.Gas.{
  estimate_tx_gas, calculate_base_fee, validate_tx_fee, payload_gas, reads_gas, inputs_gas,
  proposals_gas, signatures_gas, metadata_gas,
}
use rabbit_chain_node.Compute.Gas.Estimate.{estimate_tx_gas-exact}
use rabbit_chain_node.Compute.Tests.Samples.{payment}

abbrev funded : ComputeTx
funded = record payment { max_fee = 500; priority_fee = 20; gas_limit = 100_000 }

estimate_tx_gas-exact_example : estimate_tx_gas payment ≡ min 53152 u64_max
estimate_tx_gas-exact_example = estimate_tx_gas-exact payment

-- A parent block at one and a half times its target.
abbrev parent_fee : ℕ
parent_fee = 1000

abbrev parent_used : ℕ
parent_used = 1500

abbrev parent_limit : ℕ
parent_limit = 2000

abbrev next_fee : ℕ
next_fee = 1062

raised : calculate_base_fee parent_fee parent_used parent_limit ≡ some next_fee
unfolding calculate_base_fee
raised = refl

funded_accepted : validate_tx_fee funded 480 ≡ none
unfolding validate_tx_fee estimate_tx_gas payload_gas reads_gas inputs_gas proposals_gas
    signatures_gas metadata_gas
funded_accepted = refl
