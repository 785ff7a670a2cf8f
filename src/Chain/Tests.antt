-- ===== src/Chain/Tests.antt =====
-- Runs of the chain. Every payload is unknown, and the digest of everything is 0 for the proof of work and
-- the byte 9 for blocks.
use rabbit_chain_node.Prelude.{ℕ, ◌+◌, ◌%◌, ◌<◌, ◌≡◌, ◌⊎◌, refl, true, [], ◌∷◌, none, some, arith}
use rabbit_chain_node.Prelude.Assoc.{lookup, insert}
use rabbit_chain_node.Compute.Tests.Samples.{store, encoders, backends}
use rabbit_chain_node.Compute.Policy.Authorization.{from_be_bytes}
use rabbit_chain_node.Block.{Hashing, compute_hash, validate_header, compute_pow_hash}
use rabbit_chain_node.Governance
use rabbit_chain_node.State.Executor.{StateExecutor, EnhanceConfig}
use rabbit_chain_node.State.Game.{Libraries, MonsterSpec}
use rabbit_chain_node.State.Blocks.{Environment}
use rabbit_chain_node.Consensus.{accepted, verify_pow, calculate_reward, halve}
use rabbit_chain_node.Chain.{
  Block, Blockchain, ok, new, create_genesis_block, genesis_header, validate_block, settle_block,
  insert_block, insert_blocks,
}
use rabbit_chain_node.Chain.Links.{IsLinked}
use rabbit_chain_node.Chain.Inserts.{insert_blocks-IsLinked}
use rabbit_chain_node.Chain.Best.{IsTracked, insert_block-heavier}
use rabbit_chain_node.Chain.Labels.{relabel, insert_block-any_hash}

abbrev config : EnhanceConfig
config = record { version = 1; cost_sh = 1 ∷ 2 ∷ [] }

abbrev ogre : MonsterSpec
ogre = record { atk = 3; def = 1; hp = 40; drops = [] }

abbrev lib : Libraries ℕ ℕ ℕ ℕ
lib = record {
  keccak256 = λ bytes. bytes;
  trim = λ text. text;
  decode_hex = λ text. some text;
  parse_op = λ bytes. none;
  parse_proposal = λ bytes. none;
  parse_mint_policy = λ bytes. none;
  parse_enhance_config = λ bytes. some config;
  parse_monsters = λ bytes. some 1;
  parse_session = λ bytes. none;
  parse_value = λ bytes. some 0;
  get_str = λ key v. none;
  get_u64 = λ key v. none;
  get_bool = λ key v. none;
  get_team = λ v. none;
  same_teams = λ a b. true;
  same_value = λ a b. true;
  battle_result = λ won rounds. rounds;
  enhance_result = λ success level pity. level;
  default_config = config;
  default_monsters = 1;
  monsters_version = λ m. m;
  monster = λ m id. some ogre;
  resolve = λ teams seed. (1, 4);
  roll_with_config = λ level pity seed stones cfg. (true, level, pity);
  prng = λ seed. seed;
  below = λ n p. (p % 3, p + 1);
  chance = λ permille p. (true, p);
  verify_tower = λ proof growth a b c claim. true;
}

abbrev env : Environment
env = record {
  encoders = encoders;
  backends = backends;
  now = λ tx. 100;
  block_text = λ e. 1 ∷ [];
  compute_text = λ e. 2 ∷ [];
}

abbrev executor : StateExecutor ℕ
executor = record {
  state_db = record {
    state_root = 0;
    accounts = [];
    token_balances = [];
    storage = [];
    codes = [];
  };
  compute_store = store;
  treasury = 1;
  ledger = Governance.new;
}

abbrev hashing : Hashing
hashing = record {
  keccak256 = λ b. 9 ∷ [];
  sha256 = λ b. [];
  bincode_tx = λ tx. [];
  bincode_receipt = λ r. [];
}

-- A block after the genesis block, without transactions.
abbrev block : ℕ → ℕ → Block
block hash difficulty = record {
  header = record genesis_header {
    parent_hash = 9;
    number = 1;
    timestamp = 10;
    difficulty = difficulty;
    hash = hash;
  };
  body = none;
  uncles = [];
}

insert_blocks-IsLinked_example :
    IsLinked (insert_blocks lib env hashing (block 5 300 ∷ block 6 200 ∷ []) (new hashing executor))
insert_blocks-IsLinked_example =
    insert_blocks-IsLinked lib env hashing (block 5 300 ∷ block 6 200 ∷ []) executor

digest : (difficulty : ℕ) → compute_pow_hash hashing (block 5 difficulty).header 0 ≡ 0
unfolding compute_pow_hash from_be_bytes
digest difficulty = refl

mined : verify_pow hashing (block 5 300).header ≡ accepted
unfolding verify_pow
mined = rw (digest 300) (ground arith)

-- The first block is valid on the new chain.
valid : (validate_block lib env hashing (block 5 300) (new hashing executor)).0 ≡ ok tt
unfolding validate_block settle_block new lookup insert create_genesis_block compute_hash
    from_be_bytes validate_header
valid = rw (mined, validate_block) refl

fresh : lookup 77 (new hashing executor).blocks ≡ none
unfolding new lookup insert create_genesis_block compute_hash from_be_bytes
fresh = refl

insert_block-any_hash_example :
    lookup 77
      (insert_block lib env hashing (relabel (block 5 300) 77) (new hashing executor)).1.blocks
    ≡ some (relabel (block 5 300) 77)
insert_block-any_hash_example =
    insert_block-any_hash lib env hashing (block 5 300) 77 (new hashing executor) valid fresh

-- The chain whose best block is the first block.
abbrev chain : Blockchain ℕ
chain = record {
  genesis = create_genesis_block hashing;
  best_block = block 5 300;
  blocks = (9, create_genesis_block hashing) ∷ (5, block 5 300) ∷ [];
  hashes_by_number = (0, 9) ∷ (1, 5) ∷ [];
  total_difficulty = 5_000_000_000_000_000_300;
  state_executor = executor;
}

chain-IsTracked : IsTracked chain
unfolding IsTracked calculate_reward halve
chain-IsTracked = λ _. refl

insert_block-heavier_example :
    IsTracked (insert_block lib env hashing (block 6 200) chain).1
    × (((insert_block lib env hashing (block 6 200) chain).1.best_block ≡ block 5 300)
        ⊎ (((insert_block lib env hashing (block 6 200) chain).1.best_block ≡ block 6 200)
            × (300 < 200)))
insert_block-heavier_example =
    insert_block-heavier lib env hashing (block 6 200) chain chain-IsTracked (omega arith)
      (omega arith) (omega arith)
