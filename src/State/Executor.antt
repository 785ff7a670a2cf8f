-- ===== src/State/Executor.antt =====
-- The block executor's own state and the game operations it acts on (state/executor.rs, game.rs). The
-- crates serde_json, shanhai-core, zk and hex are the fields of `Libraries`.
pub mod Money
use rabbit_chain_node.Prelude.{
  ℕ, ◌*◌, ◌/◌, ◌%◌, ◌^◌, min, Bool, List, [], ◌∷◌, Option, none, some, ◌==◌, if◌then◌else◌, length,
  sat_mul_u64, sat_add_u64,
}
use rabbit_chain_node.Compute.Types.{
  Hash, Address, Bytes, Text, TxSignature, SignatureScheme, Command, ComputeTx, ComputeError,
}
use rabbit_chain_node.Compute.Store.{ObjectStore}
use rabbit_chain_node.Compute.Policy.Authorization.{from_be_bytes, drop}
use rabbit_chain_node.Compute.Gas.{estimate_tx_gas}
use rabbit_chain_node.Block.{Receipt}
use rabbit_chain_node.Governance.{ProposalKind, Proposal, TreasuryLedger, GovernanceError}
use rabbit_chain_node.State.{StateDb}

-- `GAME_DOMAIN`
abbrev pub game_domain : ℕ
game_domain = 0x6a7a7a00

pub data ActionKind : Type 0 where
  battle enhance : ActionKind

pub record TeamUnit : Type 0 where
  pub atk : ℕ
  pub def : ℕ
  pub hp : ℕ

pub data ActionInput : Type 0 where
  battle : Text → List TeamUnit → ActionInput
  enhance : Text → ℕ → ℕ → ℕ → ActionInput

pub record ActionDrop : Type 0 where
  pub item_id : Text
  pub count : ℕ
  pub price_shc : ℕ

-- The operations of a payload. The fields that the executor never reads are left out; `V` is the type of
-- JSON values. `other_op` stands for the operations without an effect of their own: the settlement of a
-- battle, proposals, votes, commitments, and the start of an action.
pub data GameOp (V : Type 0) : Type 0 where
  enhance : ℕ → GameOp V
  zk_enhance : ℕ → GameOp V
  execute : GameOp V
  transfer_coin : Text → ℕ → GameOp V
  transfer_token : ℕ → Text → ℕ → GameOp V
  pvp_settle : Text → ℕ → ℕ → GameOp V
  zk_tower_claim : ℕ → ℕ → ℕ → ℕ → ℕ → Text → GameOp V
  action_settle : Text → ℕ → V → List ActionDrop → GameOp V
  sell_drop : Text → Text → GameOp V
  other_op : GameOp V

-- The messages of `ExecutionError::Block`, each with what the source formats into it. The text of a library
-- that could not read something is a function of what it was given.
pub data ExecutionError : Type 0 where
  invalid_address_hex : Text → ExecutionError
  address_length body_missing count_mismatch receipt_tx_id : ExecutionError
  receipt_mismatch : Hash → Receipt → Receipt → ExecutionError
  proposal_not_passed commit_not_passed missing_proposal proposal_not_found : ExecutionError
  invalid_proposal : Bytes → ExecutionError
  insufficient_treasury_balance : ℕ → ℕ → ExecutionError
  mint_policy_not_found : ExecutionError
  invalid_mint_policy : Bytes → ExecutionError
  mint_denied : ℕ → ℕ → ExecutionError
  commit_failed : GovernanceError → ExecutionError
  missing_session session_not_found session_mismatch session_settled : ExecutionError
  invalid_session : Bytes → ExecutionError
  enhance_config_not_found monster_config_not_found : ExecutionError
  invalid_enhance_config invalid_monster_config : Bytes → ExecutionError
  stale_enhance_rules stale_monster_rules : ℕ → ℕ → ExecutionError
  action_rejected : ActionKind → ActionInput → ExecutionError
  claimed_result_mismatch claimed_drops_mismatch : ExecutionError
  insufficient_balance insufficient_for_gas : ℕ → ℕ → ExecutionError
  insufficient_token insufficient_for_transfer insufficient_for_enhance : ℕ → ℕ → ExecutionError
  insufficient_for_token_transfer : ℕ → ℕ → ℕ → ExecutionError
  two_commitments commitment_not_found commitment_consumed not_revealed teams_differ :
      ExecutionError
  invalid_commitment invalid_team : Bytes → ExecutionError
  winner_mismatch rounds_mismatch : ℕ → ℕ → ExecutionError
  tower_rejected : ℕ → ℕ → ℕ → ℕ → ℕ → Text → ExecutionError
  transfer_signer enhance_signer tower_signer sell_signer native_transfer : ExecutionError
  insufficient_for_tower insufficient_for_sale : ℕ → ℕ → ExecutionError
  ledger_expense : GovernanceError → ExecutionError
  missing_drop drop_not_found drop_spent drop_mismatch drop_worthless : ExecutionError
  invalid_drop : Bytes → ExecutionError

pub data Result {ℓ} (A : Type ℓ) : Type ℓ where
  ok : A → Result A
  err : ExecutionError → Result A

-- The `?` operator.
infixl 5 ◌>>=◌
abbrev pub ◌>>=◌ {ℓ κ} : {X : Type ℓ} {Y : Type κ} → Result X → (X → Result Y) → Result Y
ok x >>= f = f x
err failure >>= f = err failure

-- `ok_or_else`
abbrev pub required {ℓ} : {A : Type ℓ} → Option A → ExecutionError → Result A
required none failure = err failure
required (some a) failure = ok a

-- `if c { return Err(e); }`
abbrev pub refuse_if : Bool → ExecutionError → Result (Unit {0})
refuse_if Bool.true failure = err failure
refuse_if Bool.false failure = ok tt

pub record EnhanceConfig : Type 0 where
  pub version : ℕ
  pub cost_sh : List ℕ

-- `MintPolicy` (game.rs)
pub record MintPolicy : Type 0 where
  pub version : ℕ
  pub per_mint_cap : ℕ

-- The state of an action session, as far as the executor reads it.
pub record ActionSession : Type 0 where
  pub session_id : Text
  pub action_type : ActionKind
  pub inputs : ActionInput
  pub rules_version : ℕ
  pub settled : Bool

pub record StateExecutor (V : Type 0) : Type 0 where
  pub state_db : StateDb
  pub compute_store : ObjectStore
  pub treasury : Address
  pub ledger : TreasuryLedger V

-- `ed25519_signer_address` (game.rs): the first signature with a key of 32 bytes decides.
unfoldable pub signer_of : (Bytes → Bytes) → List TxSignature → Option Address
signer_of keccak256 [] = none
signer_of keccak256 (sig ∷ sigs) =
    let rest = signer_of keccak256 sigs in
    elim sig.public_key [
      | none ↦ rest
      | some pk ↦ if length pk == 32 then some (from_be_bytes 0 (drop 12 (keccak256 pk))) else rest
    ]

unfoldable pub ed25519_signer_address : (Bytes → Bytes) → ComputeTx → Option Address
ed25519_signer_address keccak256 tx = signer_of keccak256 tx.witness.signatures

abbrev pub tower_reward_cap : ℕ
tower_reward_cap = 100_000

unfoldable pub tower_reward_shc : ℕ → ℕ
tower_reward_shc claimed_final = min (claimed_final / 1000 / 10) tower_reward_cap

-- gas used × base fee + priority fee, at most the maximum fee
unfoldable pub tx_gas_fee : ComputeTx → ℕ → ℕ
tx_gas_fee tx base_fee =
    min (sat_add_u64 (sat_mul_u64 (estimate_tx_gas tx) base_fee) tx.priority_fee) tx.max_fee
