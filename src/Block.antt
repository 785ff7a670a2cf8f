-- ===== src/Block.antt =====
-- Blocks (crates/rabbitcore/src/block/mod.rs): headers, bodies and their commitments, proof of work. A
-- `U256` is the number that its bytes spell. The hash functions and the crate bincode are parameters.
pub mod Difficulty
pub mod Pow
pub mod Merkle
pub mod Body
mod Tests
use rabbit_chain_node.Prelude.{
  ℕ, zero, suc, ◌+◌, ◌-◌, ◌*◌, ◌/◌, ◌%◌, ◌^◌, Bool, true, false, not, ◌||◌, List, [], ◌∷◌, ◌++◌,
  Option, none, some, ltb, leb, ◌==◌, if◌then◌else◌, length, map, replicate, min,
}
use rabbit_chain_node.Compute.Types.{Hash, Address, Bytes, Text, ComputeTx}
use rabbit_chain_node.Compute.Tx.Preimage.{to_be_bytes, concat_map}
use rabbit_chain_node.Compute.Policy.Authorization.{from_be_bytes}

pub record BlockHeader : Type 0 where
  pub version : ℕ
  pub parent_hash : Hash
  pub uncle_hashes : List Hash
  pub coinbase : Address
  pub state_root : Hash
  pub transactions_root : Hash
  pub receipts_root : Hash
  pub number : ℕ
  pub gas_limit : ℕ
  pub gas_used : ℕ
  pub timestamp : ℕ
  pub difficulty : ℕ
  pub nonce : ℕ
  pub extra_data : Bytes
  pub mix_hash : Hash
  pub base_fee_per_gas : ℕ
  pub hash : Hash

pub data ReceiptStatus : Type 0 where
  success reverted failed : ReceiptStatus

pub record ReceiptLog : Type 0 where
  pub topic : Text
  pub data_bytes : Bytes

pub record Receipt : Type 0 where
  pub tx_id : Hash
  pub block_hash : Hash
  pub status : ReceiptStatus
  pub gas_used : ℕ
  pub compute_units : ℕ
  pub output_refs : List Hash
  pub logs : List ReceiptLog
  pub error : Option Text

pub record BlockBody : Type 0 where
  pub version : ℕ
  pub transactions : List ComputeTx
  pub receipts : List Receipt

pub data BlockError : Type 0 where
  invalid_parent_hash invalid_block_number invalid_timestamp invalid_difficulty invalid_pow :
      BlockError
  gas_limit_too_high extra_data_too_large invalid_transaction_root invalid_receipts_root :
      BlockError
  invalid_state_root invalid_block_body block_too_large : BlockError

pub data BlockResult {ℓ} (A : Type ℓ) : Type ℓ where
  ok : A → BlockResult A
  err : BlockError → BlockResult A

-- `bincode_tx` and `bincode_receipt` are `bincode::serialize`, which the code expects to succeed.
pub record Hashing : Type 0 where
  pub keccak256 : Bytes → Bytes
  pub sha256 : Bytes → Bytes
  pub bincode_tx : ComputeTx → Bytes
  pub bincode_receipt : Receipt → Bytes

unfoldable pub encode_canonical_hash_preimage : BlockHeader → Bytes
encode_canonical_hash_preimage h =
    to_be_bytes 4 h.version
    ++ (to_be_bytes 32 h.parent_hash
        ++ (to_be_bytes 8 (length h.uncle_hashes)
            ++ (concat_map (to_be_bytes 32) h.uncle_hashes
                ++ (to_be_bytes 20 h.coinbase
                    ++ (to_be_bytes 32 h.state_root
                        ++ (to_be_bytes 32 h.transactions_root
                            ++ (to_be_bytes 32 h.receipts_root
                                ++ (to_be_bytes 32 h.number
                                    ++ (to_be_bytes 8 h.gas_limit
                                        ++ (to_be_bytes 8 h.gas_used
                                            ++ (to_be_bytes 8 h.timestamp
                                                ++ (to_be_bytes 32 h.difficulty
                                                    ++ (to_be_bytes 8 h.nonce
                                                        ++ (to_be_bytes 8 (length h.extra_data)
                                                            ++ (h.extra_data
                                                            ++ (to_be_bytes 32 h.mix_hash
                                                            ++ to_be_bytes 32
                                                            h.base_fee_per_gas))))))))))))))))

-- The largest `U256`, 32 bytes 0xFF.
abbrev pub max_pow_target : ℕ
max_pow_target =
    115_792_089_237_316_195_423_570_985_008_687_907_853_269_984_665_640_564_039_457_584_007_913_129_639_935

-- The loop of `pow_target_from_difficulty` over the bytes of the quotient: the quotient so far, and the
-- remainder, a `u128`.
unfoldable pub divide_bytes : ℕ → ℕ → ℕ → ℕ → ℕ
divide_bytes zero divisor quotient remainder = quotient
divide_bytes (suc slots) divisor quotient remainder =
    let value = (remainder * 256 + 0xff) % 2 ^ 128 in
    divide_bytes slots divisor (quotient * 256 + min (value / divisor) 0xff) (value % divisor)

-- `difficulty.as_u128()` keeps the low 128 bits.
unfoldable pub pow_target_from_difficulty : ℕ → ℕ
pow_target_from_difficulty difficulty =
    if difficulty == 0
    then max_pow_target
    else (let divisor = difficulty % 2 ^ 128 in
        if divisor == 0 || ltb (2 ^ 120 - 1) divisor then 0 else divide_bytes 32 divisor 0 0)

-- The ASCII text RABBIT-POW-V1
abbrev pub pow_domain_tag : Bytes
pow_domain_tag =
    b'R' ∷ b'A' ∷ b'B' ∷ b'B' ∷ b'I' ∷ b'T' ∷ 45 ∷ b'P' ∷ b'O' ∷ b'W' ∷ 45 ∷ b'V' ∷ b'1' ∷ []

-- The ASCII texts RABBIT-BLOCK-TX-V1 and RABBIT-BLOCK-RECEIPT-V1
abbrev tx_tag : Bytes
tx_tag =
    b'R' ∷ b'A' ∷ b'B' ∷ b'B' ∷ b'I' ∷ b'T' ∷ 45 ∷ b'B' ∷ b'L' ∷ b'O' ∷ b'C' ∷ b'K' ∷ 45 ∷ b'T'
    ∷ b'X' ∷ 45 ∷ b'V' ∷ b'1' ∷ []

abbrev receipt_tag : Bytes
receipt_tag =
    b'R' ∷ b'A' ∷ b'B' ∷ b'B' ∷ b'I' ∷ b'T' ∷ 45 ∷ b'B' ∷ b'L' ∷ b'O' ∷ b'C' ∷ b'K' ∷ 45 ∷ b'R'
    ∷ b'E' ∷ b'C' ∷ b'E' ∷ b'I' ∷ b'P' ∷ b'T' ∷ 45 ∷ b'V' ∷ b'1' ∷ []

module _ (c : Hashing) where
  unfoldable pub compute_hash : BlockHeader → Hash
  compute_hash h = from_be_bytes 0 (c.keccak256 (encode_canonical_hash_preimage h))

  -- `BlockHeader::validate` against the parent header
  unfoldable pub validate_header : BlockHeader → BlockHeader → BlockResult (Unit {0})
  validate_header h parent =
      let parent_hash = if parent.hash == 0 then compute_hash parent else parent.hash in
      if not (h.parent_hash == parent_hash)
      then err invalid_parent_hash
      else (if not (h.number == (parent.number + 1) % 2 ^ 256)
          then err invalid_block_number
          else (if leb h.timestamp parent.timestamp
              then err invalid_timestamp
              else (if ltb 32 (length h.extra_data) then err extra_data_too_large else ok tt)))

  -- The mined digest, as the big-endian number that it is compared as.
  unfoldable pub compute_pow_hash : BlockHeader → ℕ → Hash
  compute_pow_hash h nonce = from_be_bytes 0 (
      c.sha256 (
        c.sha256 (
          pow_domain_tag
          ++ encode_canonical_hash_preimage (record h { nonce = nonce; mix_hash = 0 }))))

  unfoldable pub verify_pow : BlockHeader → BlockResult (Unit {0})
  verify_pow h =
      if h.number == 0
      then ok tt
      else (if h.difficulty == 0
          then err invalid_difficulty
          else (if leb (compute_pow_hash h h.nonce) (pow_target_from_difficulty h.difficulty)
              then ok tt
              else err invalid_pow))

  -- One pass of `compute_merkle_root`: pairs are hashed, and a last hash alone is paired with itself.
  abbrev pub hash_pair : Hash → Hash → Hash
  hash_pair left right = from_be_bytes 0 (c.keccak256 (to_be_bytes 32 left ++ to_be_bytes 32 right))

  unfoldable pub next_level : List Hash → List Hash
  next_level [] = []
  next_level (left ∷ []) = hash_pair left left ∷ []
  next_level (left ∷ right ∷ level) = hash_pair left right ∷ next_level level

  -- The loop over the levels. The fuel is the number of leaves, and each level is shorter.
  unfoldable pub reduce_levels : ℕ → List Hash → Hash
  reduce_levels n [] = 0
  reduce_levels n (h ∷ []) = h
  reduce_levels zero level = 0
  reduce_levels (suc n) level = reduce_levels n (next_level level)

  unfoldable pub compute_merkle_root : List Hash → Hash
  compute_merkle_root hashes = reduce_levels (length hashes) hashes

  abbrev pub commitment_leaf_hash : Bytes → Bytes → Hash
  commitment_leaf_hash domain serialized = from_be_bytes 0 (c.keccak256 (domain ++ serialized))

  abbrev pub transaction_leaf : ComputeTx → Hash
  transaction_leaf tx = commitment_leaf_hash tx_tag (c.bincode_tx tx)

  abbrev pub receipt_leaf : Receipt → Hash
  receipt_leaf r =
      commitment_leaf_hash receipt_tag (c.bincode_receipt (record r { block_hash = 0 }))

  unfoldable pub compute_transactions_root : List ComputeTx → Hash
  compute_transactions_root txs = compute_merkle_root (map transaction_leaf txs)

  unfoldable pub compute_receipts_root : List Receipt → Hash
  compute_receipts_root receipts = compute_merkle_root (map receipt_leaf receipts)

  -- The loop of `validate_against_header` over the transactions and their receipts.
  unfoldable pub receipts_match : Hash → List ComputeTx → List Receipt → Bool
  receipts_match hash (tx ∷ txs) (r ∷ rs) =
      if not (tx.tx_id == r.tx_id) || not (r.block_hash == hash)
      then false
      else receipts_match hash txs rs
  receipts_match hash _ _ = true

  unfoldable pub validate_against_header : BlockBody → BlockHeader → BlockResult (Unit {0})
  validate_against_header body h =
      if not (length body.transactions == length body.receipts)
      then err invalid_block_body
      else (if not (receipts_match h.hash body.transactions body.receipts)
          then err invalid_block_body
          else (if not (h.transactions_root == compute_transactions_root body.transactions)
              then err invalid_transaction_root
              else (if not (h.receipts_root == compute_receipts_root body.receipts)
                  then err invalid_receipts_root
                  else ok tt)))
