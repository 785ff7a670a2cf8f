-- ===== src/Chain.antt =====
-- The chain of blocks and the choice between forks (crates/rabbitcore/src/blockchain/chain.rs and
-- fork_choice.rs). A HashMap is an association list, and the locks are the passing on of the chain: an
-- operation that fails returns the chain as it leaves it. The texts of `InvalidBlock` and `Consensus` are
-- constructors.
pub mod Links
pub mod Inserts
pub mod Best
pub mod Labels
pub mod Sync
pub mod Forks
mod Tests
use rabbit_chain_node.Prelude.{
  ℕ, ◌+◌, ◌%◌, ◌^◌, Bool, true, false, List, [], ◌∷◌, Option, none, some, ltb, ◌==◌, not,
  if◌then◌else◌,
}
use rabbit_chain_node.Prelude.Assoc.{Map, lookup, insert}
use rabbit_chain_node.Compute.Types.{Hash, Bytes}
use rabbit_chain_node.Block.{
  BlockHeader, BlockBody, BlockError, BlockResult, Hashing, compute_hash, validate_header,
}
use rabbit_chain_node.State.Executor.{ExecutionError, StateExecutor}
use rabbit_chain_node.State.Executor
use rabbit_chain_node.State.Game.{Libraries}
use rabbit_chain_node.State.Blocks.{Environment, StateTransition, execute_block}
use rabbit_chain_node.Consensus.{
  ConsensusError, ConsensusResult, accepted, refused, calculate_reward, verify_pow,
}

pub record Block : Type 0 where
  pub header : BlockHeader
  pub body : Option BlockBody
  pub uncles : List BlockHeader

pub data InvalidBlock : Type 0 where
  parent_not_found : InvalidBlock
  header_error : BlockError → InvalidBlock
  execution_error : ExecutionError → InvalidBlock

pub data BlockchainError : Type 0 where
  block_not_found : Hash → BlockchainError
  invalid_block : InvalidBlock → BlockchainError
  orphan_block invalid_state_root database : BlockchainError
  consensus : ConsensusError → BlockchainError

pub data Result {ℓ} (A : Type ℓ) : Type ℓ where
  ok : A → Result A
  err : BlockchainError → Result A

pub record Blockchain (V : Type 0) : Type 0 where
  pub genesis : Block
  pub best_block : Block
  pub blocks : Map Block
  pub hashes_by_number : Map Hash
  pub total_difficulty : ℕ
  pub state_executor : StateExecutor V

-- The ASCII text RabbitChain Genesis
abbrev genesis_text : Bytes
genesis_text =
    b'R' ∷ b'a' ∷ b'b' ∷ b'b' ∷ b'i' ∷ b't' ∷ b'C' ∷ b'h' ∷ b'a' ∷ b'i' ∷ b'n' ∷ 32 ∷ b'G' ∷ b'e'
    ∷ b'n' ∷ b'e' ∷ b's' ∷ b'i' ∷ b's' ∷ []

abbrev pub genesis_header : BlockHeader
genesis_header = record {
  version = 3;
  parent_hash = 0;
  uncle_hashes = [];
  coinbase = 0;
  state_root = 0;
  transactions_root = 0;
  receipts_root = 0;
  number = 0;
  gas_limit = 30_000_000;
  gas_used = 0;
  timestamp = 0;
  difficulty = 0;
  nonce = 0;
  extra_data = genesis_text;
  mix_hash = 0;
  base_fee_per_gas = 1;
  hash = 0;
}

unfoldable pub create_genesis_block : Hashing → Block
create_genesis_block c = record {
  header = record genesis_header { hash = compute_hash c genesis_header };
  body = some (record { version = 1; transactions = []; receipts = [] });
  uncles = [];
}

module _ {V : Type 0} where
  -- `new_with_executor`
  unfoldable pub new : Hashing → StateExecutor V → Blockchain V
  new c x =
      let genesis = create_genesis_block c in
      record {
        genesis = genesis;
        best_block = genesis;
        blocks = insert genesis.header.hash genesis [];
        hashes_by_number = insert 0 genesis.header.hash [];
        total_difficulty = genesis.header.difficulty;
        state_executor = x;
      }

  abbrev pub get_block : Blockchain V → Hash → Option Block
  get_block chain hash = lookup hash chain.blocks

  unfoldable pub get_block_by_number : Blockchain V → ℕ → Option Block
  get_block_by_number chain number = elim (lookup number chain.hashes_by_number) [
    | none ↦ none
    | some hash ↦ get_block chain hash
  ]

  -- The two maps after `insert_block` stores a block.
  abbrev pub store_block : Block → Blockchain V → Blockchain V
  store_block block chain = record chain {
    blocks = insert block.header.hash block chain.blocks;
    hashes_by_number =
        insert (block.header.number % 2 ^ 64) block.header.hash chain.hashes_by_number;
  }

  abbrev pub update_best_block : Block → ℕ → Blockchain V → Blockchain V
  update_best_block block total_difficulty chain = record chain {
    best_block = block;
    total_difficulty = total_difficulty;
  }

  -- What the executor answered, on the chain after the execution.
  unfoldable pub check_transition :
      Executor.Result StateTransition → Block → Blockchain V → Result (Unit {0}) × Blockchain V
  check_transition (Executor.Result.err e) block chain =
      (err (invalid_block (execution_error e)), chain)
  check_transition (Executor.Result.ok transition) block chain =
      if not (transition.to_root == block.header.state_root)
      then (err invalid_state_root, chain)
      else (ok tt, chain)

unfoldable pub contains_key : Hash → Map Block → Bool
contains_key hash blocks = elim (lookup hash blocks) [ none ↦ false | some _ ↦ true ]

abbrev pub has_compute_txs : Option BlockBody → Bool
has_compute_txs none = false
has_compute_txs (some body) = elim body.transactions [ [] ↦ false | tx ∷ txs ↦ true ]

-- `get_total_difficulty` is the same for every block.
abbrev pub get_total_difficulty : ℕ
get_total_difficulty = calculate_reward 1000

-- `parent_td + block.header.difficulty`, which wraps
abbrev pub total_of : Block → ℕ
total_of block = (get_total_difficulty + block.header.difficulty) % 2 ^ 256

module _ {V T M P : Type 0} (lib : Libraries V T M P) (env : Environment) (c : Hashing) where
  -- The execution of the transactions of a block.
  unfoldable pub settle_block : Block → Block → Blockchain V → Result (Unit {0}) × Blockchain V
  settle_block block parent chain =
      if not (has_compute_txs block.body)
      then (ok tt, chain)
      else (let (result, x) =
            execute_block lib env block.header block.body parent.header.state_root
              chain.state_executor in
          check_transition result block (record chain { state_executor = x }))

  unfoldable pub validate_block : Block → Blockchain V → Result (Unit {0}) × Blockchain V
  validate_block block chain = elim (get_block chain block.header.parent_hash) [
    | none ↦ (err (invalid_block parent_not_found), chain)
    | some parent ↦ elim (validate_header c block.header parent.header) [
      | BlockResult.err e ↦ (err (invalid_block (header_error e)), chain)
      | BlockResult.ok _ ↦ elim (verify_pow c block.header) [
        | refused e ↦ (err (consensus e), chain)
        | accepted ↦ settle_block block parent chain
      ]
    ]
  ]

  -- What `insert_block` does with a valid block.
  unfoldable pub accept_block : Block → Blockchain V → Result Bool × Blockchain V
  accept_block block chain = elim (get_block chain block.header.parent_hash) [
    | none ↦ (err orphan_block, chain)
    | some parent ↦
        let stored = store_block block chain in
        if ltb chain.total_difficulty (total_of block)
        then (ok true, update_best_block block (total_of block) stored)
        else (ok false, stored)
  ]

  unfoldable pub insert_block : Block → Blockchain V → Result Bool × Blockchain V
  insert_block block chain =
      if contains_key block.header.hash chain.blocks
      then (ok false, chain)
      else (let (valid, checked) = validate_block block chain in
          elim valid [ err e ↦ (err e, checked) | ok _ ↦ accept_block block checked ])

  -- The chain after a sequence of insertions, whatever each returns.
  unfoldable pub insert_blocks : List Block → Blockchain V → Blockchain V
  insert_blocks [] chain = chain
  insert_blocks (block ∷ blocks) chain = insert_blocks blocks (insert_block block chain).1
