-- ===== src/Compute/Tx.antt =====
-- The operation model (compute/tx.rs): the structural check of a transaction.
-- The bytes that are signed are in the child `Preimage`.
pub mod Preimage
use rabbit_chain_node.Prelude.{
  ℕ, ◌<◌, ◌≡◌, Bool, true, false, not, ◌&&◌, ◌||◌, List, [], ◌∷◌, ltb, ◌==◌, if◌then◌else◌,
  is_empty, all,
}
use rabbit_chain_node.Compute.Types.{
  Command, transfer, invoke, mint, burn, anchor, reveal, agent_tick, ResourceMap, ComputeTx,
  OutputProposal,
}

-- `MAX_GAS_LIMIT_PER_TX` (compute/gas.rs)
abbrev pub max_gas_limit_per_tx : ℕ
max_gas_limit_per_tx = 5_000_000

-- `pair[0].0 < pair[1].0` for every pair of neighbours: the keys ascend strictly.
unfoldable pub resource_map_is_canonical : ResourceMap → Bool
resource_map_is_canonical [] = true
resource_map_is_canonical (x ∷ []) = true
resource_map_is_canonical (x ∷ y ∷ m) = ltb x.0 y.0 && resource_map_is_canonical (y ∷ m)

abbrev pub needs_inputs : Command → Bool
needs_inputs transfer = true
needs_inputs invoke = true
needs_inputs burn = true
needs_inputs _ = false

abbrev pub is_burn : Command → Bool
is_burn burn = true
is_burn _ = false

abbrev pub is_invoke : Command → Bool
is_invoke invoke = true
is_invoke _ = false

abbrev pub is_mint : Command → Bool
is_mint mint = true
is_mint _ = false

abbrev pub payload_only_invoke : ComputeTx → Bool
payload_only_invoke tx = is_invoke tx.command && is_empty tx.input_set && not (is_empty tx.payload)

abbrev pub fee_mode : ComputeTx → Bool
fee_mode tx = ltb 0 tx.max_fee || ltb 0 tx.priority_fee

unfoldable pub basic_sanity_check : ComputeTx → Bool
basic_sanity_check tx =
    if needs_inputs tx.command && is_empty tx.input_set && not (payload_only_invoke tx)
    then false
    else (if not (is_burn tx.command)
          && is_empty tx.output_proposals
          && not (payload_only_invoke tx)
        then false
        else (if not (all (λ p. resource_map_is_canonical p.resources) tx.output_proposals)
            then false
            else (if fee_mode tx && tx.gas_limit == 0
                then false
                else not (
                    not (fee_mode tx)
                    && ltb 0 tx.gas_limit
                    && ltb max_gas_limit_per_tx tx.gas_limit))))
