-- ===== src/State/Blocks.antt =====
-- The execution of a block (state/executor.rs): `execute_txs`, `execute_block` and `validate_receipt`. The
-- texts of errors and the reading of the system clock at each transaction are parameters. A failure
-- leaves what was done before it, as in the source: the executor comes back beside the result.
use rabbit_chain_node.Prelude.{
  ℕ, ◌%◌, ◌^◌, Bool, true, false, not, List, [], ◌∷◌, Option, none, some, ◌==◌, ◌||◌, if◌then◌else◌,
  list_eq, length, sat_add_u64,
}
use rabbit_chain_node.Compute.Types.{
  Hash, Text, ComputeTx, OutputProposal, ComputeError, ComputeResult,
}
use rabbit_chain_node.Compute.Validate.{Backends}
use rabbit_chain_node.Compute.Executor.{Encoders, Registry, execute}
use rabbit_chain_node.Compute.Gas.{estimate_tx_gas}
use rabbit_chain_node.Block.{BlockHeader, BlockBody, Receipt, ReceiptStatus}
use rabbit_chain_node.State.Executor.{
  ExecutionError, body_missing, count_mismatch, receipt_tx_id, receipt_mismatch, Result, ok, err,
  ◌>>=◌, refuse_if, StateExecutor,
}
use rabbit_chain_node.State.Game.{Libraries}
use rabbit_chain_node.State.Payments.{
  apply_fee_effects, commit_fee_effects, apply_economy_effects, commit_economy_effects,
}
use rabbit_chain_node.State.Governed.{apply_governance_effects, commit_governance_effects}
use rabbit_chain_node.State.Rewards.{
  apply_zk_tower_effects, commit_zk_tower_effects, apply_drop_sell_effects,
  commit_drop_sell_effects,
}
use rabbit_chain_node.State.Prechecks.{apply_action_effects, apply_pvp_effects}

-- What the block executor is built from: the executor of single transactions with its policies, the
-- clock, and the texts that `to_string` gives.
pub record Environment : Type 0 where
  pub encoders : Encoders
  pub backends : Backends
  pub now : ComputeTx → ℕ
  pub block_text : ExecutionError → Text
  pub compute_text : ComputeError → Text

pub record StateTransition : Type 0 where
  pub from_root : Hash
  pub to_root : Hash

abbrev pub failed_receipt : ComputeTx → Text → Receipt
failed_receipt tx text = record {
  tx_id = tx.tx_id;
  block_hash = 0;
  status = ReceiptStatus.failed;
  gas_used = 0;
  compute_units = 0;
  output_refs = [];
  logs = [];
  error = some text;
}

abbrev pub proposed_ids : List OutputProposal → List Hash
proposed_ids [] = []
proposed_ids (p ∷ ps) = p.output_id ∷ proposed_ids ps

abbrev pub success_receipt : ComputeTx → Receipt
success_receipt tx = record {
  tx_id = tx.tx_id;
  block_hash = 0;
  status = ReceiptStatus.success;
  gas_used = estimate_tx_gas tx;
  compute_units = 0;
  output_refs = proposed_ids tx.output_proposals;
  logs = [];
  error = none;
}

-- One transaction: its receipt, what it adds to the gas of the block, and the state after it. The
-- executor of single transactions keeps its nonces from one transaction of a block to the next.
pub record TxStep (V : Type 0) : Type 0 where
  pub receipt : Receipt
  pub gas : ℕ
  pub executor : StateExecutor V
  pub nonces : Registry

-- A commit, and the next one where it succeeds.
infixl 5 ◌then_commit◌
abbrev pub ◌then_commit◌ :
    {S : Type 0} → Result (Unit {0}) × S → (S → Result (Unit {0}) × S) → Result (Unit {0}) × S
(r, s) then_commit next = elim r [ ok _ ↦ next s | err failure ↦ (err failure, s) ]

module _ {V T M P : Type 0} (lib : Libraries V T M P) (env : Environment)
    (base_fee block_timestamp : ℕ) where
  unfoldable pub precheck : ComputeTx → StateExecutor V → Result (Unit {0})
  precheck tx x = apply_governance_effects lib tx block_timestamp x >>= λ _.
      apply_action_effects lib tx x >>= λ _. apply_drop_sell_effects lib tx x >>= λ _.
      apply_zk_tower_effects lib tx x >>= λ _. apply_pvp_effects lib tx x >>= λ _.
      apply_fee_effects lib tx base_fee x >>= λ _. apply_economy_effects lib tx x

  unfoldable pub commit_effects : ComputeTx → StateExecutor V → Result (Unit {0}) × StateExecutor V
  commit_effects tx x =
      commit_governance_effects lib tx block_timestamp x
      then_commit commit_economy_effects lib tx
      then_commit commit_fee_effects lib tx base_fee
      then_commit commit_zk_tower_effects lib tx
      then_commit commit_drop_sell_effects lib tx

  unfoldable pub settle : ComputeTx → Registry → StateExecutor V → TxStep V
  settle tx nonces x =
      let (committed, x') = commit_effects tx x in
      elim committed [
        | err failure ↦ record {
          receipt = failed_receipt tx (env.block_text failure);
          gas = estimate_tx_gas tx;
          executor = x';
          nonces = nonces;
        }
        | ok _ ↦ record {
          receipt = success_receipt tx;
          gas = estimate_tx_gas tx;
          executor = x';
          nonces = nonces;
        }
      ]

  -- The body of the loop of `execute_txs`.
  unfoldable pub execute_tx : ComputeTx → Registry → StateExecutor V → TxStep V
  execute_tx tx nonces x = elim (precheck tx x) [
    | err failure ↦ record {
      receipt = failed_receipt tx (env.block_text failure);
      gas = 0;
      executor = x;
      nonces = nonces;
    }
    | ok _ ↦
        let (result, e) =
          execute env.encoders env.backends (env.now tx) tx
            (record { store = x.compute_store; replay_nonce_registry = nonces }) in
        let x' : StateExecutor V = record x { compute_store = e.store } in
        elim result [
          | ComputeResult.err failure ↦ record {
            receipt = failed_receipt tx (env.compute_text failure);
            gas = 0;
            executor = x';
            nonces = e.replay_nonce_registry;
          }
          | ComputeResult.ok report ↦ settle tx e.replay_nonce_registry x'
        ]
  ]

  -- The receipts and the total of gas, from the total so far.
  unfoldable pub execute_txs :
      List ComputeTx → ℕ → Registry → StateExecutor V → (List Receipt × ℕ) × StateExecutor V
  execute_txs [] total_gas nonces x = (([], total_gas), x)
  execute_txs (tx ∷ txs) total_gas nonces x =
      let step = execute_tx tx nonces x in
      let ((receipts, gas), x') =
        execute_txs txs (sat_add_u64 total_gas step.gas) step.nonces step.executor in
      ((step.receipt ∷ receipts, gas), x')

abbrev pub same_status : ReceiptStatus → ReceiptStatus → Bool
same_status ReceiptStatus.success ReceiptStatus.success = true
same_status ReceiptStatus.reverted ReceiptStatus.reverted = true
same_status ReceiptStatus.failed ReceiptStatus.failed = true
same_status _ _ = false

abbrev pub same_error : Option Text → Option Text → Bool
same_error none none = true
same_error (some a) (some b) = list_eq a b
same_error _ _ = false

unfoldable pub validate_receipt : ComputeTx → Receipt → Receipt → Result (Unit {0})
validate_receipt tx computed declared =
    refuse_if
      (not (same_status computed.status declared.status)
        || (not (computed.gas_used == declared.gas_used)
            || (not (list_eq computed.output_refs declared.output_refs)
                || not (same_error computed.error declared.error))))
      (receipt_mismatch tx.tx_id computed declared)

-- The loop of `execute_block` over the three lists.
unfoldable pub validate_receipts : List ComputeTx → List Receipt → List Receipt → Result (Unit {0})
validate_receipts (tx ∷ txs) (computed ∷ cs) (declared ∷ ds) =
    refuse_if (not (tx.tx_id == declared.tx_id)) receipt_tx_id >>= λ _.
    validate_receipt tx computed declared >>= λ _. validate_receipts txs cs ds
validate_receipts _ _ _ = ok tt

module _ {V T M P : Type 0} (lib : Libraries V T M P) (env : Environment) where
  unfoldable pub execute_block :
      BlockHeader
      → Option BlockBody
      → Hash
      → StateExecutor V
      → Result StateTransition × StateExecutor V
  execute_block header none parent_state_root x = (err body_missing, x)
  execute_block header (some body) parent_state_root x =
      if not (length body.transactions == length body.receipts)
      then (err count_mismatch, x)
      else (let ((computed, gas), x') =
            execute_txs lib env (header.base_fee_per_gas % 2 ^ 64) header.timestamp
              body.transactions 0 [] x in
          (
            validate_receipts body.transactions computed body.receipts >>= λ _.
                ok (record { from_root = parent_state_root; to_root = x'.state_db.state_root }),
            x',
          ))
