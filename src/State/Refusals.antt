-- ===== src/State/Refusals.antt =====
-- The three ways in which `execute_tx` ends.
use rabbit_chain_node.Prelude.{ℕ, ◌≡◌, ◌⊎◌, inl, inr, arith}
use rabbit_chain_node.Compute.Types.{ComputeTx, ComputeError, ComputeResult}
use rabbit_chain_node.Compute.Validate.{ValidationReport}
use rabbit_chain_node.Compute.Executor.{Executor, Registry, execute}
use rabbit_chain_node.Compute.Results.{ComputeResult-cases}
use rabbit_chain_node.Block.{ReceiptStatus}
use rabbit_chain_node.State.Executor.{ExecutionError, ok, err, StateExecutor}
use rabbit_chain_node.State.Game.{Libraries}
use rabbit_chain_node.State.Blocks.{Environment, precheck, commit_effects, settle, execute_tx}
use rabbit_chain_node.State.Frame.{Result-cases}

module _ {V T M P : Type 0} (lib : Libraries V T M P) (env : Environment) (base_fee t : ℕ) where
  -- The execution of a transaction alone, on the block's store and nonces.
  abbrev pub ran :
      ComputeTx → Registry → StateExecutor V → ComputeResult ValidationReport × Executor
  ran tx nonces x =
      execute env.encoders env.backends (env.now tx) tx
        (record { store = x.compute_store; replay_nonce_registry = nonces })

  -- The executor after that.
  abbrev pub after_run : ComputeTx → Registry → StateExecutor V → StateExecutor V
  after_run tx nonces x = record x { compute_store = (ran tx nonces x).1.store }

  module _ (tx : ComputeTx) (nonces : Registry) (x : StateExecutor V) where
    -- A check refuses the transaction: nothing changes.
    abbrev pub Refused : Type 0
    Refused =
        (e : ExecutionError) × (precheck lib env base_fee t tx x ≡ err e)
        × ((execute_tx lib env base_fee t tx nonces x).executor ≡ x)
        × ((execute_tx lib env base_fee t tx nonces x).nonces ≡ nonces)
        × ((execute_tx lib env base_fee t tx nonces x).receipt.status ≡ ReceiptStatus.failed)

    -- Its execution fails: no balance and no ledger changes.
    abbrev pub Rejected : Type 0
    Rejected =
        (e : ComputeError) × ((ran tx nonces x).0 ≡ ComputeResult.err e)
        × ((execute_tx lib env base_fee t tx nonces x).executor.state_db ≡ x.state_db)
        × ((execute_tx lib env base_fee t tx nonces x).executor.ledger ≡ x.ledger)
        × ((execute_tx lib env base_fee t tx nonces x).receipt.status ≡ ReceiptStatus.failed)

    -- It is executed: the state is what the commits leave, and the receipt a success where all of them
    -- succeed.
    abbrev pub Settled : Type 0
    Settled =
        (report : ValidationReport) × (precheck lib env base_fee t tx x ≡ ok tt)
        × ((ran tx nonces x).0 ≡ ComputeResult.ok report)
        × ((execute_tx lib env base_fee t tx nonces x).executor
            ≡ (commit_effects lib env base_fee t tx (after_run tx nonces x)).1)
        × ((((commit_effects lib env base_fee t tx (after_run tx nonces x)).0 ≡ ok tt)
              × ((execute_tx lib env base_fee t tx nonces x).receipt.status
                  ≡ ReceiptStatus.success))
            ⊎ ((e : ExecutionError) × ((commit_effects lib env base_fee t tx
                    (after_run tx nonces x)).0
                  ≡ err e)
                × ((execute_tx lib env base_fee t tx nonces x).receipt.status
                    ≡ ReceiptStatus.failed)))

  -- Every transaction ends in one of the three ways.
  pub execute_tx_branches :
      (tx : ComputeTx) (nonces : Registry) (x : StateExecutor V)
      → Refused tx nonces x ⊎ Rejected tx nonces x ⊎ Settled tx nonces x
  unfolding execute_tx settle
  execute_tx_branches tx nonces x = elim (Result-cases (precheck lib env base_fee t tx x)) [
    | inr (e, h) ↦ inl (e, h, ground (arith, h), ground (arith, h), ground (arith, h))
    | inl (done, h) ↦ elim (ComputeResult-cases (ran tx nonces x).0) [
      | inr (e, r) ↦
          inr (inl (e, r, ground (arith, h, r), ground (arith, h, r), ground (arith, h, r)))
      | inl (report, r) ↦
          elim (Result-cases (commit_effects lib env base_fee t tx (after_run tx nonces x)).0) [
            | inl (all, c) ↦
                inr (inr (report, h, r, ground (arith, h, r, c), inl (c, ground (arith, h, r, c))))
            | inr (e, c) ↦
                inr
                  (inr (report, h, r, ground (arith, h, r, c), inr (e, c, ground (arith, h, r, c))))
          ]
    ]
  ]
