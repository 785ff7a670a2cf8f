-- ===== src/Consensus/Tests.antt =====
-- Runs of the proof-of-work engine.
use rabbit_chain_node.Prelude.{◌≡◌, refl, [], ◌∷◌, arith}
use rabbit_chain_node.Compute.Policy.Authorization.{from_be_bytes}
use rabbit_chain_node.Block
use rabbit_chain_node.Block.{BlockHeader, Hashing, BlockResult, compute_pow_hash}
use rabbit_chain_node.Consensus.{refused, invalid_pow, verify_pow}
use rabbit_chain_node.Consensus.Target.{verify_pow-refuses}

-- The digest of everything is the single byte 9.
abbrev hashing : Hashing
hashing = record {
  keccak256 = λ b. 9 ∷ [];
  sha256 = λ b. 9 ∷ [];
  bincode_tx = λ tx. [];
  bincode_receipt = λ r. [];
}

-- A block of the smallest difficulty that the engine asks for.
abbrev mined : BlockHeader
mined = record {
  version = 3;
  parent_hash = 9;
  uncle_hashes = [];
  coinbase = 0;
  state_root = 0;
  transactions_root = 9;
  receipts_root = 9;
  number = 4;
  gas_limit = 30_000_000;
  gas_used = 0;
  timestamp = 130;
  difficulty = 1_000_000;
  nonce = 0;
  extra_data = [];
  mix_hash = 0;
  base_fee_per_gas = 1;
  hash = 0;
}

digest : compute_pow_hash hashing mined 0 ≡ 9
unfolding compute_pow_hash from_be_bytes
digest = refl

verify_pow-refuses_example :
    (Block.verify_pow hashing mined ≡ BlockResult.ok tt)
    × (verify_pow hashing mined ≡ refused invalid_pow)
verify_pow-refuses_example =
    verify_pow-refuses hashing mined (omega arith) (omega arith) (omega arith)
      (omega (arith, digest)) (omega (arith, digest))
