-- ===== src/Consensus.antt =====
-- The proof-of-work engine of the chain (crates/rabbitcore/src/consensus/mod.rs), with the parameters that
-- `PowConsensus::new` sets. A `U256` is the number that its bytes spell, and its division is that of
-- account/account.rs, on the bytes. Of a block `validate_block` reads the header.
pub mod Target
mod Tests
use rabbit_chain_node.Prelude.{
  ℕ, zero, suc, ◌-◌, ◌*◌, ◌/◌, ◌%◌, ◌^◌, max, Option, leb, ◌==◌, if◌then◌else◌, replicate,
}
use rabbit_chain_node.Compute.Tx.Preimage.{to_be_bytes}
use rabbit_chain_node.Compute.Policy.Authorization.{from_be_bytes}
use rabbit_chain_node.Block.{
  BlockHeader, Hashing, BlockResult, max_pow_target, validate_header, compute_pow_hash,
}
use rabbit_chain_node.Block.Difficulty.{adjust_mining_difficulty}
use rabbit_chain_node.Account.{div}

pub data ConsensusError : Type 0 where
  invalid_block invalid_pow invalid_difficulty block_exists orphan_block invalid_state_transition :
      ConsensusError

pub data ConsensusResult : Type 0 where
  accepted : ConsensusResult
  refused : ConsensusError → ConsensusResult

abbrev pub target_block_time : ℕ
target_block_time = 10

abbrev pub min_difficulty : ℕ
min_difficulty = 1_000_000

abbrev pub max_difficulty : ℕ
max_difficulty = 2 ^ 128 - 1

abbrev pub initial_reward : ℕ
initial_reward = 5_000_000_000_000_000_000

abbrev pub halving_period : ℕ
halving_period = 2_100_000

unfoldable pub difficulty_to_target : ℕ → ℕ
difficulty_to_target difficulty =
    if difficulty == 0
    then max_pow_target
    else from_be_bytes 0 (div (replicate 32 255) (to_be_bytes 32 difficulty))

-- `min_difficulty.saturating_mul(10).max(1)` stays far below the largest u128.
unfoldable pub calculate_difficulty : BlockHeader → ℕ → Option ℕ
calculate_difficulty parent current_timestamp =
    adjust_mining_difficulty parent.difficulty (max (current_timestamp - parent.timestamp) 1)
      target_block_time min_difficulty max_difficulty (max (min_difficulty * 10) 1)

-- The loop of `calculate_reward`.
unfoldable pub halve : ℕ → ℕ → ℕ
halve zero reward = reward
halve (suc n) reward = halve n (reward % 2 ^ 128 / 2)

unfoldable pub calculate_reward : ℕ → ℕ
calculate_reward block_number = halve (block_number % 2 ^ 64 / halving_period) initial_reward

module _ (c : Hashing) where
  unfoldable pub verify_pow : BlockHeader → ConsensusResult
  verify_pow h =
      if h.number == 0
      then accepted
      else (if h.difficulty == 0
          then refused invalid_difficulty
          else (if leb (compute_pow_hash c h h.nonce) (difficulty_to_target h.difficulty)
              then accepted
              else refused invalid_pow))

  unfoldable pub validate_block : BlockHeader → BlockHeader → ConsensusResult
  validate_block h parent = elim (validate_header c h parent) [
    | BlockResult.err _ ↦ refused invalid_block
    | BlockResult.ok _ ↦ verify_pow h
  ]
