-- ===== src/Compute/Runner.antt =====
-- The batch runner (compute/batch.rs), as far as it is sequential: one transaction, and the fallback queue. A
-- worker of `run_group` does `run_planned` with each transaction that it takes from the group; the
-- interleavings of several workers are not modelled.
pub mod Serial
use rabbit_chain_node.Prelude.{
  ℕ, Bool, true, false, List, [], ◌∷◌, ◌++◌, Option, none, some, length,
}
use rabbit_chain_node.Compute.Types.{Hash, ComputeTx, ComputeError, ComputeResult, ok, err}
use rabbit_chain_node.Compute.Store.{ObjectStore}
use rabbit_chain_node.Compute.Validate.{Backends, ValidationReport, validate}
use rabbit_chain_node.Compute.Executor.{Encoders, Executor, execute, commit_prevalidated}
use rabbit_chain_node.Compute.Batch.{
  PendingComputeTx, PlannedComputeTx, ComputeBatchGroup, ComputeBatchPlan,
}

pub record ComputeBatchOutcome : Type 0 where
  pub tx_id : Hash
  pub accepted : Bool
  pub report : Option ValidationReport
  pub created_outputs : ℕ
  pub error : Option ComputeError

-- The outcome of a transaction under an identifier.
abbrev pub outcome_of : Hash → ComputeTx → ComputeResult ValidationReport → ComputeBatchOutcome
outcome_of id tx (ok report) = record {
  tx_id = id;
  accepted = true;
  report = some report;
  created_outputs = length tx.output_proposals;
  error = none;
}
outcome_of id tx (err e) = record {
  tx_id = id;
  accepted = false;
  report = none;
  created_outputs = length tx.output_proposals;
  error = some e;
}

-- `BasicTxExecutor::new`: the registry of nonces of a new executor is empty.
abbrev pub new_executor : ObjectStore → Executor
new_executor s = record { store = s; replay_nonce_registry = [] }

module _ (e : Encoders) (b : Backends) (now : ℕ) where
  unfoldable pub run_single : ComputeTx → ObjectStore → ComputeBatchOutcome × ObjectStore
  run_single tx s =
      let (result, x) = execute e b now tx (new_executor s) in
      (outcome_of tx.tx_id tx result, x.store)

  unfoldable pub run_serial : PendingComputeTx → ObjectStore → ComputeBatchOutcome × ObjectStore
  run_serial pending s = run_single pending.tx s

  -- What a worker does with one planned transaction, where no other worker writes in between.
  unfoldable pub run_planned : PlannedComputeTx → ObjectStore → ComputeBatchOutcome × ObjectStore
  run_planned planned s =
      let tx = planned.pending.tx in
      elim (validate b s tx) [
        | err f ↦ (outcome_of planned.pending.tx_id tx (err f), s)
        | ok report ↦
            let (result, x) = commit_prevalidated e now tx report (new_executor s) in
            (outcome_of planned.pending.tx_id tx result, x.store)
      ]

  unfoldable pub run_serials :
      List PendingComputeTx → ObjectStore → List ComputeBatchOutcome × ObjectStore
  run_serials [] s = ([], s)
  run_serials (pending ∷ queue) s =
      let (outcome, s') = run_serial pending s in
      let (outcomes, s'') = run_serials queue s' in (outcome ∷ outcomes, s'')
