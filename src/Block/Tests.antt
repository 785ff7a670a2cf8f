-- ===== src/Block/Tests.antt =====
-- Runs of the block rules.
use rabbit_chain_node.Prelude.{ℕ, ◌+◌, ◌/◌, ◌≤◌, ◌≡◌, ◌↔◌, List, [], ◌∷◌, none, some, arith}
use rabbit_chain_node.Compute.Tests.Samples.{payment}
use rabbit_chain_node.Block.{
  BlockHeader, ReceiptStatus, BlockBody, ok, Hashing, max_pow_target, pow_target_from_difficulty,
  compute_merkle_root, validate_against_header, compute_transactions_root, compute_receipts_root,
}
use rabbit_chain_node.Block.Difficulty.{step_of, adjust_mining_difficulty}
use rabbit_chain_node.Block.Difficulty.Bounds.{parent_of, adjust_mining_difficulty_bounds}
use rabbit_chain_node.Block.Pow.{pow_target_from_difficulty-exact}
use rabbit_chain_node.Block.Merkle.{done, compute_merkle_root-repeated}
use rabbit_chain_node.Block.Body.{Matched, validate_against_header_iff}

-- The digest of everything is the single byte 9.
abbrev hashing : Hashing
hashing = record {
  keccak256 = λ b. 9 ∷ [];
  sha256 = λ b. 9 ∷ [];
  bincode_tx = λ tx. [];
  bincode_receipt = λ r. [];
}

abbrev header : ℕ → ℕ → ℕ → BlockHeader
header number timestamp difficulty = record {
  version = 3;
  parent_hash = 9;
  uncle_hashes = [];
  coinbase = 0;
  state_root = 0;
  transactions_root = 9;
  receipts_root = 9;
  number = number;
  gas_limit = 30_000_000;
  gas_used = 0;
  timestamp = timestamp;
  difficulty = difficulty;
  nonce = 0;
  extra_data = [];
  mix_hash = 0;
  base_fee_per_gas = 1;
  hash = 0;
}

adjust_mining_difficulty_bounds_example :
    (next : ℕ) × (adjust_mining_difficulty 2_000_000 30 10 1 1_000_000_000 1_000_000 ≡ some next)
    × (1 ≤ next)
    × (next ≤ 1_000_000_000)
    × (next
        ≤ parent_of 1 1_000_000_000 2_000_000
          + step_of 1_000_000 (parent_of 1 1_000_000_000 2_000_000))
    × (parent_of 1 1_000_000_000 2_000_000
        ≤ next + step_of 1_000_000 (parent_of 1 1_000_000_000 2_000_000))
adjust_mining_difficulty_bounds_example =
    adjust_mining_difficulty_bounds 2_000_000 30 10 1 1_000_000_000 1_000_000 (omega arith)
      (omega arith)

abbrev recent : List BlockHeader
recent = header 1 100 50 ∷ header 2 107 60 ∷ header 3 120 70 ∷ []

pow_target_from_difficulty-exact_example : pow_target_from_difficulty 1000 ≡ max_pow_target / 1000
pow_target_from_difficulty-exact_example =
    pow_target_from_difficulty-exact 1000 (omega arith) (omega arith)

compute_merkle_root-repeated_example :
    compute_merkle_root hashing (1 ∷ 2 ∷ 3 ∷ []) ≡ compute_merkle_root hashing (1 ∷ 2 ∷ 3 ∷ 3 ∷ [])
compute_merkle_root-repeated_example = compute_merkle_root-repeated hashing 1 2 3 [] done

abbrev body : BlockBody
body = record {
  version = 1;
  transactions = payment ∷ [];
  receipts =
      record {
        tx_id = 99;
        block_hash = 0;
        status = ReceiptStatus.success;
        gas_used = 0;
        compute_units = 0;
        output_refs = 3 ∷ [];
        logs = [];
        error = none;
      }
      ∷ [];
}

validate_against_header_iff_example :
    (validate_against_header hashing body (header 4 130 70) ≡ ok tt) ↔ (
      Matched 0 body.transactions body.receipts
      × (9 ≡ compute_transactions_root hashing body.transactions)
      × (9 ≡ compute_receipts_root hashing body.receipts))
validate_against_header_iff_example = validate_against_header_iff hashing body (header 4 130 70)

abbrev parent : BlockHeader
parent = header 3 120 70

abbrev child : BlockHeader
child = header 4 130 70
