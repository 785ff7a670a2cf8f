-- ===== src/State/Tests.antt =====
-- Runs of the state database and of the block executor.
use rabbit_chain_node.Prelude.{
  ℕ, ◌+◌, ◌%◌, ◌≤◌, ◌<◌, ◌≡◌, ◌↔◌, refl, true, false, List, [], ◌∷◌, ◌++◌, none, some, arith,
  replicate,
}
use rabbit_chain_node.Prelude.Assoc.{lookup}
use rabbit_chain_node.Compute.Types.{Bytes, ComputeTx, Command, SignatureScheme}
use rabbit_chain_node.Compute.Tests.Samples.{payment, store, encoders, backends, opened}
use rabbit_chain_node.Compute.Policy.Authorization.{from_be_bytes}
use rabbit_chain_node.Compute.Gas.{
  payload_gas, reads_gas, inputs_gas, proposals_gas, signatures_gas, metadata_gas, estimate_tx_gas,
}
use rabbit_chain_node.Block.{BlockHeader, BlockBody, ReceiptStatus}
use rabbit_chain_node.Governance.{new}
use rabbit_chain_node.State.{
  u256_max, Account, AccountChange, get_account, get_balance, insert_account, balance_or_zero,
  apply_changes,
}
use rabbit_chain_node.State.Executor.{
  GameOp, StateExecutor, ActionKind, ActionInput, TeamUnit, EnhanceConfig, signer_of,
  ed25519_signer_address, tx_gas_fee, ok, game_domain,
}
use rabbit_chain_node.State.Executor.Money.{
  account_or_default, credit_account, debit_account, credit_treasury,
}
use rabbit_chain_node.State.Game.{
  Libraries, MonsterSpec, team_atk, team_def, team_hp, battle_of, execute_action, roll_drops,
}
use rabbit_chain_node.State.Game.Battle.{
  start, after_rounds, Fought, IsOver, battle_of-Fought, execute_action-stalemate,
}
use rabbit_chain_node.State.Payments.{
  game_op, apply_fee_effects, commit_fee_effects, apply_economy_effects, commit_economy_effects,
}
use rabbit_chain_node.State.Governed.{apply_governance_effects, commit_governance_effects}
use rabbit_chain_node.State.Rewards.{
  apply_zk_tower_effects, commit_zk_tower_effects, apply_drop_sell_effects,
  commit_drop_sell_effects,
}
use rabbit_chain_node.State.Prechecks.{apply_action_effects, apply_pvp_effects}
use rabbit_chain_node.State.Blocks.{
  Environment, StateTransition, precheck, commit_effects, settle, execute_tx, execute_txs,
  execute_block,
}
use rabbit_chain_node.State.Conservation.{native_supply}
use rabbit_chain_node.State.Supply.{execute_block-native_supply, execute_block-stale_root}
use rabbit_chain_node.State.Receipts.{Repeated, computed_receipts, execute_block_iff}
use rabbit_chain_node.State.Charged.{execute_tx-Charges}
use rabbit_chain_node.State.Changes.{apply_changes-never_lowers}
use rabbit_chain_node.State.TokenSupply.{token_supply}
use rabbit_chain_node.State.TokenBlocks.{executes_proposal, execute_tx-token_supply}

-- The 20 bytes of the address 9.
abbrev nine : Bytes
nine = replicate 19 0 ++ 9 ∷ []

abbrev ogre : MonsterSpec
ogre = record { atk = 3; def = 1; hp = 40; drops = [] }

abbrev config : EnhanceConfig
config = record { version = 1; cost_sh = 1 ∷ 2 ∷ [] }

-- Every payload is a transfer of 5 coins to the address 9; hashes and texts are left as they are.
abbrev lib : Libraries ℕ ℕ ℕ ℕ
lib = record {
  keccak256 = λ bytes. bytes;
  trim = λ text. text;
  decode_hex = λ text. some text;
  parse_op = λ bytes. some (GameOp.transfer_coin nine 5);
  parse_proposal = λ bytes. none;
  parse_mint_policy = λ bytes. none;
  parse_enhance_config = λ bytes. some config;
  parse_monsters = λ bytes. some 1;
  parse_session = λ bytes. none;
  parse_value = λ bytes. some 0;
  get_str = λ key v. none;
  get_u64 = λ key v. none;
  get_bool = λ key v. none;
  get_team = λ v. none;
  same_teams = λ a b. true;
  same_value = λ a b. true;
  battle_result = λ won rounds. rounds;
  enhance_result = λ success level pity. level;
  default_config = config;
  default_monsters = 1;
  monsters_version = λ m. m;
  monster = λ m id. some ogre;
  resolve = λ teams seed. (1, 4);
  roll_with_config = λ level pity seed stones cfg. (true, level, pity);
  prng = λ seed. seed;
  below = λ n p. (p % 3, p + 1);
  chance = λ permille p. (true, p);
  verify_tower = λ proof growth a b c claim. true;
}

abbrev env : Environment
env = record {
  encoders = encoders;
  backends = backends;
  now = λ tx. 100;
  block_text = λ e. 1 ∷ [];
  compute_text = λ e. 2 ∷ [];
}

-- The payment of the samples, signed by the address 7 and with a fee of at most 50.
abbrev signed : ComputeTx
signed = record payment {
  witness = record {
    signatures =
        (record {
          scheme = SignatureScheme.ed25519;
          bytes = [];
          public_key = some (replicate 31 0 ++ 7 ∷ []);
        })
        ∷ [];
    threshold = none;
  };
  max_fee = 50;
  gas_limit = 100_000;
}

abbrev holding : ℕ → Account
holding amount = record { balance = amount; nonce = 0; code_hash = 0 }

-- The address 7 has 80, the treasury is the address 1.
abbrev chain : StateExecutor ℕ
chain = record {
  state_db = record {
    state_root = 55;
    accounts = (7, holding 80) ∷ (8, holding 20) ∷ [];
    token_balances = ((7, 1), 30) ∷ [];
    storage = [];
    codes = [];
  };
  compute_store = store;
  treasury = 1;
  ledger = new;
}

signed_succeeds : (execute_tx lib env 3 60 signed [] chain).receipt.status ≡ ReceiptStatus.success
unfolding opened execute_tx settle precheck commit_effects apply_governance_effects
    apply_action_effects apply_drop_sell_effects apply_zk_tower_effects apply_pvp_effects
    apply_fee_effects apply_economy_effects commit_governance_effects commit_economy_effects
    commit_fee_effects commit_zk_tower_effects commit_drop_sell_effects game_op tx_gas_fee
    estimate_tx_gas payload_gas reads_gas inputs_gas proposals_gas signatures_gas metadata_gas
    ed25519_signer_address signer_of get_account balance_or_zero debit_account credit_treasury
    credit_account insert_account account_or_default from_be_bytes
signed_succeeds = refl

signed_by : ed25519_signer_address lib.keccak256 signed ≡ some 7
unfolding ed25519_signer_address signer_of from_be_bytes
signed_by = refl

execute_tx-Charges_example :
    get_balance 7 (execute_tx lib env 3 60 signed [] chain).executor.state_db + tx_gas_fee signed 3
    ≡ get_balance 7 chain.state_db
execute_tx-Charges_example =
    execute_tx-Charges lib 3 signed 7 env 60 [] chain refl signed_by (omega arith) signed_succeeds

-- In the game domain the same transaction is a transfer of coins.
abbrev gift : ComputeTx
gift = record signed { domain_id = game_domain; command = Command.invoke }

gift_idle : executes_proposal 1 lib (game_op lib gift) ≡ false
unfolding game_op
gift_idle = refl

execute_tx-token_supply_example :
    token_supply 1 (execute_tx lib env 3 60 gift [] chain).executor.state_db
    ≡ token_supply 1 chain.state_db
execute_tx-token_supply_example =
    execute_tx-token_supply 1 lib env 3 60 gift [] chain gift_idle (omega arith)

abbrev header : BlockHeader
header = record {
  version = 1;
  parent_hash = 2;
  uncle_hashes = [];
  coinbase = 8;
  state_root = 55;
  transactions_root = 0;
  receipts_root = 0;
  number = 1;
  gas_limit = 30_000_000;
  gas_used = 0;
  timestamp = 60;
  difficulty = 1;
  nonce = 0;
  extra_data = [];
  mix_hash = 0;
  base_fee_per_gas = 3;
  hash = 4;
}

abbrev body : BlockBody
body = record {
  version = 1;
  transactions = signed ∷ [];
  receipts = (execute_txs lib env 3 60 (signed ∷ []) 0 [] chain).0.0;
}

execute_block-native_supply_example :
    native_supply (execute_block lib env header (some body) 54 chain).1.state_db ≡ 100
execute_block-native_supply_example =
    execute_block-native_supply lib env header (some body) 54 chain (omega arith)

repeats : Repeated body.transactions (computed_receipts lib env header body chain) body.receipts
unfolding opened execute_txs execute_tx settle precheck commit_effects apply_governance_effects
    apply_action_effects apply_drop_sell_effects apply_zk_tower_effects apply_pvp_effects
    apply_fee_effects apply_economy_effects commit_governance_effects commit_economy_effects
    commit_fee_effects commit_zk_tower_effects commit_drop_sell_effects game_op tx_gas_fee
    estimate_tx_gas payload_gas reads_gas inputs_gas proposals_gas signatures_gas metadata_gas
    ed25519_signer_address signer_of get_account balance_or_zero debit_account credit_treasury
    credit_account insert_account account_or_default from_be_bytes
repeats =
    (record { tx_id = refl; status = refl; gas_used = refl; output_refs = refl; error = refl }, tt)

accepted : (s : StateTransition) × ((execute_block lib env header (some body) 54 chain).0 ≡ ok s)
accepted = (execute_block_iff lib env header body 54 chain).1 repeats

execute_block-stale_root_example : (accepted.0.from_root ≡ 54) × (accepted.0.to_root ≡ 55)
execute_block-stale_root_example =
    execute_block-stale_root lib env header body 54 chain accepted.0 accepted.1

execute_block_iff_example :
    ((s : StateTransition) × ((execute_block lib env header (some body) 54 chain).0 ≡ ok s))
    ↔ (Repeated body.transactions (computed_receipts lib env header body chain) body.receipts)
execute_block_iff_example = execute_block_iff lib env header body 54 chain

-- A change of -1 in two's complement, for the address 7.
abbrev minus_one : List AccountChange
minus_one =
    record { address = 7; balance_change = some (replicate 32 255); storage_changes = [] } ∷ []

apply_changes-never_lowers_example :
    (lookup 7 (apply_changes (λ bytes. bytes) minus_one chain.state_db).1.accounts
      ≡ some (holding u256_max))
    × (80 ≤ get_balance 7 (apply_changes (λ bytes. bytes) minus_one chain.state_db).1)
unfolding get_balance balance_or_zero lookup from_be_bytes
apply_changes-never_lowers_example =
    apply_changes-never_lowers (λ bytes. bytes) 7 minus_one chain.state_db (omega arith)

abbrev hero : List TeamUnit
hero = record { atk = 20; def = 5; hp = 60 } ∷ []

battle_of-Fought_example :
    (n : ℕ) × (n ≤ 500)
    × (battle_of lib ogre hero 7 ≡ after_rounds lib 20 5 ogre n (start lib ogre hero 7))
    × Fought lib 20 5 ogre n (start lib ogre hero 7)
    × IsOver lib 20 5 ogre (battle_of lib ogre hero 7)
unfolding team_atk team_def
battle_of-Fought_example = battle_of-Fought lib ogre hero 7

-- A monster that a blow of three hit points hardly hurts, and a team that its blows hardly hurt.
abbrev giant : MonsterSpec
giant = record { atk = 3; def = 100; hp = 5_000; drops = [] }

abbrev giants : Libraries ℕ ℕ ℕ ℕ
giants = record lib { monster = λ m id. some giant }

abbrev wall : List TeamUnit
wall = record { atk = 20; def = 5; hp = 2_000 } ∷ []

execute_action-stalemate_example :
    (0 < (battle_of giants giant wall 7).monster_hp)
    × (execute_action giants ActionKind.battle (ActionInput.battle [] wall) 7 config 1
        ≡ some (record {
          result = 500;
          drops = roll_drops giants [] (battle_of giants giant wall 7).rng;
        }))
unfolding team_atk team_def team_hp
execute_action-stalemate_example =
    execute_action-stalemate giants (λ p. omega arith) [] wall 7 config 1 giant refl (omega arith)
      (omega arith)
