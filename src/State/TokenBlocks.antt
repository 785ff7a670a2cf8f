-- ===== src/State/TokenBlocks.antt =====
-- The supply of tokens over a transaction that does not execute a proposal.
use rabbit_chain_node.Prelude.{
  ℕ, ◌≤◌, ◌≡◌, ap, ◌∙◌, inl, inr, Bool, true, false, Option, some, arith,
}
use rabbit_chain_node.Compute.Types.{ComputeTx}
use rabbit_chain_node.Compute.Executor.{Registry}
use rabbit_chain_node.State.{u256_max, StateDb}
use rabbit_chain_node.State.Executor.{ok, StateExecutor, GameOp}
use rabbit_chain_node.State.Game.{Libraries}
use rabbit_chain_node.State.Payments.{game_op, commit_economy_effects, commit_fee_effects}
use rabbit_chain_node.State.Governed.{governance_commit, commit_governance_effects}
use rabbit_chain_node.State.Rewards.{commit_zk_tower_effects, commit_drop_sell_effects}
use rabbit_chain_node.State.Blocks.{Environment, ◌then_commit◌, commit_effects, execute_tx}
use rabbit_chain_node.State.Refusals.{after_run, execute_tx_branches}
use rabbit_chain_node.State.Conservation.{then_commit-keeps}
use rabbit_chain_node.State.TokenSupply.{token_supply}
use rabbit_chain_node.State.TokenConservation.{
  Balanced, commit_economy_effects-Balanced, commit_fee_effects-Balanced,
  commit_zk_tower_effects-Balanced, commit_drop_sell_effects-Balanced,
}

module _ (tok : ℕ) {V T M P : Type 0} (lib : Libraries V T M P) where
  -- A transaction whose operation is the execution of a proposal.
  abbrev pub executes_proposal : Option (GameOp V) → Bool
  executes_proposal (some GameOp.execute) = true
  executes_proposal op = false

  governance_idle :
      (tx : ComputeTx) (t : ℕ) (x : StateExecutor V)
      → executes_proposal (game_op lib tx) ≡ false
      → commit_governance_effects lib tx t x ≡ (ok tt, x)
  unfolding commit_governance_effects governance_commit
  governance_idle tx t x h = ground (arith, h)

  Balanced-trans : (a b c : StateDb) → Balanced tok a b → Balanced tok b c → Balanced tok a c
  Balanced-trans a b c f g bound = g (rw (f bound) bound) ∙ f bound

  commit_effects-Balanced :
      (env : Environment) (base_fee t : ℕ) (tx : ComputeTx) (x : StateExecutor V)
      → executes_proposal (game_op lib tx) ≡ false
      → Balanced tok x.state_db (commit_effects lib env base_fee t tx x).1.state_db
  unfolding commit_effects
  commit_effects-Balanced env base_fee t tx x idle =
      let Q = λ (y : StateExecutor V). Balanced tok x.state_db y.state_db in
      let step = λ (y z : StateExecutor V). Balanced-trans x.state_db y.state_db z.state_db in
      let m₂ = (ok tt, x) then_commit commit_economy_effects lib tx in
      let m₃ = m₂ then_commit commit_fee_effects lib tx base_fee in
      let m₄ = m₃ then_commit commit_zk_tower_effects lib tx in
      rw (governance_idle tx t x idle) (
        then_commit-keeps Q m₄ (commit_drop_sell_effects lib tx)
          (then_commit-keeps Q m₃ (commit_zk_tower_effects lib tx)
            (then_commit-keeps Q m₂ (commit_fee_effects lib tx base_fee)
              (commit_economy_effects-Balanced tok lib tx x)
              (λ y k.
                step y (commit_fee_effects lib tx base_fee y).1 k
                  (commit_fee_effects-Balanced tok lib tx base_fee y)))
            (λ y k.
              step y (commit_zk_tower_effects lib tx y).1 k
                (commit_zk_tower_effects-Balanced tok lib tx y)))
          (λ y k.
            step y (commit_drop_sell_effects lib tx y).1 k
              (commit_drop_sell_effects-Balanced tok lib tx y)))

  -- A transaction that does not execute a proposal leaves the supply of every token other than the native
  -- one as it was, whatever its receipt says, where the supply is at most the largest `U256`.
  pub execute_tx-token_supply :
      (env : Environment) (base_fee t : ℕ) (tx : ComputeTx) (nonces : Registry)
      (x : StateExecutor V)
      → executes_proposal (game_op lib tx) ≡ false
      → token_supply tok x.state_db ≤ u256_max
      → token_supply tok (execute_tx lib env base_fee t tx nonces x).executor.state_db
        ≡ token_supply tok x.state_db
  execute_tx-token_supply env base_fee t tx nonces x idle bound =
      elim (execute_tx_branches lib env base_fee t tx nonces x) [
        | inl refused ↦ ap (λ (y : StateExecutor V). token_supply tok y.state_db) refused.2
        | inr ran_on ↦ elim ran_on [
          | inl failed ↦ ap (λ (d : StateDb). token_supply tok d) failed.2
          | inr settled ↦
              ap (λ (y : StateExecutor V). token_supply tok y.state_db) settled.3
              ∙ commit_effects-Balanced env base_fee t tx (after_run lib env base_fee t tx nonces x)
                  idle bound
        ]
      ]
