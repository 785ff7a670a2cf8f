-- ===== src/State/Supply.antt =====
-- The native supply and the state root over whole blocks.
use rabbit_chain_node.Prelude.{
  ℕ, ◌%◌, ◌^◌, ◌≤◌, ◌≡◌, refl, ◌∙◌, inl, inr, true, List, [], ◌∷◌, Option, none, some, ◌==◌, arith,
  length, Bool-cases, sat_add_u64,
}
use rabbit_chain_node.Compute.Types.{Hash, ComputeTx}
use rabbit_chain_node.Compute.Executor.{Registry, execute}
use rabbit_chain_node.Compute.Results.{ComputeResult-cases}
use rabbit_chain_node.Block.{BlockHeader, BlockBody}
use rabbit_chain_node.State.{u256_max}
use rabbit_chain_node.State.Executor.{ok, StateExecutor}
use rabbit_chain_node.State.Game.{Libraries}
use rabbit_chain_node.State.Blocks.{
  validate_receipts, Environment, StateTransition, precheck, commit_effects, settle, execute_tx,
  execute_txs, execute_block,
}
use rabbit_chain_node.State.Frame.{Result-cases}
use rabbit_chain_node.State.Conservation.{
  native_supply, Kept, Kept-refl, Kept-trans, commit_effects-Kept,
}

module _ {V T M P : Type 0} (lib : Libraries V T M P) (env : Environment) (base_fee t : ℕ) where
  settle_executor :
      (tx : ComputeTx) (nonces : Registry) (x : StateExecutor V)
      → (settle lib env base_fee t tx nonces x).executor
        ≡ (commit_effects lib env base_fee t tx x).1
  unfolding settle
  settle_executor tx nonces x = elim (Result-cases (commit_effects lib env base_fee t tx x).0) [
    | inl (done, e) ↦ rw (e, settle) refl
    | inr (failure, e) ↦ rw (e, settle) refl
  ]

  execute_tx-Kept :
      (tx : ComputeTx) (nonces : Registry) (x : StateExecutor V)
      → Kept x (execute_tx lib env base_fee t tx nonces x).executor
  unfolding execute_tx
  execute_tx-Kept tx nonces x = elim (Result-cases (precheck lib env base_fee t tx x)) [
    | inr (failure, e) ↦ rw (e, execute_tx) (Kept-refl x)
    | inl (done, e) ↦
        let run =
          execute env.encoders env.backends (env.now tx) tx
            (record { store = x.compute_store; replay_nonce_registry = nonces }) in
        let x' : StateExecutor V = record x { compute_store = run.1.store } in
        let committed = commit_effects-Kept lib env base_fee t tx x' in
        let kept : Kept x (commit_effects lib env base_fee t tx x').1 = record {
          supply = committed.supply;
          state_root = committed.state_root;
        } in
        elim (ComputeResult-cases run.0) [
          | inr (failure, r) ↦
              rw (e, r, execute_tx) (record { supply = λ bound. refl; state_root = refl })
          | inl (report, r) ↦
              rw (e, r, execute_tx, settle_executor tx run.1.replay_nonce_registry x') kept
        ]
  ]

  pub execute_txs-Kept :
      (txs : List ComputeTx) (gas : ℕ) (nonces : Registry) (x : StateExecutor V)
      → Kept x (execute_txs lib env base_fee t txs gas nonces x).1
  unfolding execute_txs
  execute_txs-Kept [] gas nonces x = Kept-refl x
  execute_txs-Kept (tx ∷ txs) gas nonces x =
      let step = execute_tx lib env base_fee t tx nonces x in
      let first = execute_tx-Kept tx nonces x in
      Kept-trans x step.executor
        (execute_txs lib env base_fee t txs (sat_add_u64 gas step.gas) step.nonces step.executor).1
        first (execute_txs-Kept txs (sat_add_u64 gas step.gas) step.nonces step.executor)

module _ {V T M P : Type 0} (lib : Libraries V T M P) (env : Environment) where
  execute_block-Kept :
      (h : BlockHeader) (body : Option BlockBody) (root : Hash) (x : StateExecutor V)
      → Kept x (execute_block lib env h body root x).1
  unfolding execute_block
  execute_block-Kept h none root x = Kept-refl x
  execute_block-Kept h (some body) root x =
      elim (Bool-cases (length body.transactions == length body.receipts)) [
        | inr odd ↦ rw (odd, execute_block) (Kept-refl x)
        | inl even ↦
            rw (even, execute_block)
              (execute_txs-Kept lib env (h.base_fee_per_gas % 2 ^ 64) h.timestamp body.transactions
                0 [] x)
      ]

  -- The execution of a block, accepted or not, neither makes nor destroys native token, where the supply
  -- is at most the largest `U256`.
  pub execute_block-native_supply :
      (h : BlockHeader) (body : Option BlockBody) (root : Hash) (x : StateExecutor V)
      → native_supply x.state_db ≤ u256_max
      → native_supply (execute_block lib env h body root x).1.state_db ≡ native_supply x.state_db
  execute_block-native_supply h body root x bound = (execute_block-Kept h body root x).supply bound

  to_root_of :
      (h : BlockHeader) (body : BlockBody) (root : Hash) (x : StateExecutor V) (s : StateTransition)
      → (execute_block lib env h (some body) root x).0 ≡ ok s
      → (s.from_root ≡ root)
        × (s.to_root ≡ (execute_block lib env h (some body) root x).1.state_db.state_root)
        × ((length body.transactions == length body.receipts) ≡ true)
  unfolding execute_block
  to_root_of h body root x s accepted =
      elim (Bool-cases (length body.transactions == length body.receipts)) [
        | inr odd ↦ absurd (ground (arith, accepted))
        | inl even ↦
            let (computed, x') =
              execute_txs lib env (h.base_fee_per_gas % 2 ^ 64) h.timestamp body.transactions 0 []
                x in
            elim (Result-cases (validate_receipts body.transactions computed.0 body.receipts)) [
              | inl (done, valid) ↦ ground (arith, accepted)
              | inr (failure, bad) ↦ absurd (ground (arith, accepted))
            ]
      ]

  -- An accepted block goes from the root that it was given to the root that the state database had before
  -- it, whatever its transactions did to the balances.
  pub execute_block-stale_root :
      (h : BlockHeader) (body : BlockBody) (root : Hash) (x : StateExecutor V) (s : StateTransition)
      → (execute_block lib env h (some body) root x).0 ≡ ok s
      → (s.from_root ≡ root) × (s.to_root ≡ x.state_db.state_root)
  execute_block-stale_root h body root x s accepted =
      let (from, to, even) = to_root_of h body root x s accepted in
      (from, to ∙ (execute_block-Kept h (some body) root x).state_root)
