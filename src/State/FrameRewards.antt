-- ===== src/State/FrameRewards.antt =====
-- What proposals, tower claims and sales of drops leave alone.
use rabbit_chain_node.Prelude.{ℕ, refl, inl, inr, arith, Bool-cases, Option-cases}
use rabbit_chain_node.Compute.Types.{Address, Text, ComputeTx}
use rabbit_chain_node.Governance.{Proposal, ProposalKind, tally, is_passed}
use rabbit_chain_node.State.{shc_token}
use rabbit_chain_node.State.Executor.{
  tower_signer, sell_signer, GameOp, Result, ok, err, StateExecutor, tower_reward_shc,
}
use rabbit_chain_node.State.Executor.Money.{credit_token, debit_treasury, with_db}
use rabbit_chain_node.State.Game.{Libraries}
use rabbit_chain_node.State.Payments.{game_op, parse_address_hex, payer_of}
use rabbit_chain_node.State.Governed.{
  input_proposal, pay_kind, book_proposal, commit_proposal, governance_commit,
  commit_governance_effects,
}
use rabbit_chain_node.State.Rewards.{
  tower_reward, zk_summary_reward, drop_redeem, shc_sink, pay_out, pay_price, sell_drop_price,
  tower_commit, drop_commit, commit_zk_tower_effects, commit_drop_sell_effects,
}
use rabbit_chain_node.State.Frame.{
  Result-cases, Framed, framed, Framed-trans, credit_token-Framed, take_token-Framed,
}

debit_treasury-Framed :
    {V : Type 0} → (amount : ℕ) (x : StateExecutor V) → Framed x (debit_treasury amount x).1
unfolding debit_treasury
debit_treasury-Framed amount x = take_token-Framed x.treasury shc_token amount x refl

module _ {V T M P : Type 0} (lib : Libraries V T M P) where
  pay_kind-Framed : (kind : ProposalKind V) (x : StateExecutor V) → Framed x (pay_kind lib kind x).1
  unfolding pay_kind
  pay_kind-Framed (ProposalKind.fund_activity amount memo) x = debit_treasury-Framed amount x
  pay_kind-Framed (ProposalKind.mint_shc to amount) x =
      elim (Result-cases (parse_address_hex lib to)) [
        | inl (target, e) ↦ rw (e, pay_kind) (credit_token-Framed target shc_token amount x refl)
        | inr (failure, e) ↦ rw (e, pay_kind) (framed x)
      ]
  pay_kind-Framed (ProposalKind.update_config o v) x = framed x
  pay_kind-Framed (ProposalKind.freeze o r) x = framed x
  pay_kind-Framed (ProposalKind.add_game_op o d) x = framed x

  -- Booking touches the ledger only.
  book_proposal-Framed : (p : Proposal V) (x : StateExecutor V) → Framed x (book_proposal lib p x).1
  unfolding book_proposal
  book_proposal-Framed p x = record {
    accounts = ground arith;
    state_root = ground arith;
    treasury = ground arith;
  }

  commit_proposal-Framed :
      (r : Result (Proposal V)) (block_timestamp : ℕ) (x : StateExecutor V)
      → Framed x (commit_proposal lib r block_timestamp x).1
  unfolding commit_proposal
  commit_proposal-Framed (err failure) block_timestamp x = framed x
  commit_proposal-Framed (ok proposal) block_timestamp x =
      let p = (tally block_timestamp proposal).1 in
      elim (Bool-cases (is_passed (tally block_timestamp proposal).0)) [
        | inr other ↦ rw (other, commit_proposal) (framed x)
        | inl passed ↦ elim (Result-cases (pay_kind lib p.kind x).0) [
          | inl (done, e) ↦
              let x' = (pay_kind lib p.kind x).1 in
              rw (passed, e, commit_proposal)
                (Framed-trans x x' (book_proposal lib p x').1 (pay_kind-Framed p.kind x)
                  (book_proposal-Framed p x'))
          | inr (failure, e) ↦ rw (passed, e, commit_proposal) (pay_kind-Framed p.kind x)
        ]
      ]

  governance_commit-Framed :
      (tx : ComputeTx) (block_timestamp : ℕ) (op : GameOp V) (x : StateExecutor V)
      → Framed x (governance_commit lib tx block_timestamp op x).1
  unfolding governance_commit
  governance_commit-Framed tx t GameOp.execute x =
      commit_proposal-Framed (input_proposal lib tx x) t x
  governance_commit-Framed tx t op x = framed x

  pub commit_governance_effects-Framed :
      (tx : ComputeTx) (block_timestamp : ℕ) (x : StateExecutor V)
      → Framed x (commit_governance_effects lib tx block_timestamp x).1
  unfolding commit_governance_effects
  commit_governance_effects-Framed tx t x = elim (Option-cases (game_op lib tx)) [
    | inl e ↦ rw (e, commit_governance_effects) (framed x)
    | inr (op, e) ↦ rw (e, commit_governance_effects) (governance_commit-Framed tx t op x)
  ]

  pay_out-Framed :
      (destination memo : Text) (amount : ℕ) (r : Result Address) (x : StateExecutor V)
      → Framed x (pay_out lib destination memo amount r x).1
  pay_out-Framed destination memo amount (err failure) x = unfold pay_out in framed x
  pay_out-Framed destination memo amount (ok payer) x =
      let debited = debit_treasury-Framed amount x in
      let x' = (debit_treasury amount x).1 in
      let both =
        Framed-trans x x' (with_db (credit_token payer shc_token amount x'.state_db) x') debited
          (credit_token-Framed payer shc_token amount x' refl) in
      unfold pay_out in
      elim (Result-cases (debit_treasury amount x).0) [
        | inl (done, e) ↦ record {
          accounts = ground (arith, both.accounts);
          state_root = ground (arith, both.state_root);
          treasury = ground (arith, both.treasury);
        }
        | inr (failure, e) ↦ record {
          accounts = ground (arith, debited.accounts);
          state_root = ground (arith, debited.state_root);
          treasury = ground (arith, debited.treasury);
        }
      ]

  tower_commit-Framed :
      (tx : ComputeTx) (op : GameOp V) (x : StateExecutor V) → Framed x (tower_commit lib tx op x).1
  unfolding tower_commit
  tower_commit-Framed tx (GameOp.zk_tower_claim g a b c claimed_final proof) x =
      pay_out-Framed tower_reward zk_summary_reward (tower_reward_shc claimed_final)
        (payer_of lib tower_signer tx) x
  tower_commit-Framed tx op x = framed x

  pub commit_zk_tower_effects-Framed :
      (tx : ComputeTx) (x : StateExecutor V) → Framed x (commit_zk_tower_effects lib tx x).1
  unfolding commit_zk_tower_effects
  commit_zk_tower_effects-Framed tx x = elim (Option-cases (game_op lib tx)) [
    | inl e ↦ rw (e, commit_zk_tower_effects) (framed x)
    | inr (op, e) ↦ rw (e, commit_zk_tower_effects) (tower_commit-Framed tx op x)
  ]

  pay_price-Framed :
      (tx : ComputeTx) (r : Result ℕ) (x : StateExecutor V) → Framed x (pay_price lib tx r x).1
  unfolding pay_price
  pay_price-Framed tx (err failure) x = framed x
  pay_price-Framed tx (ok price) x =
      pay_out-Framed drop_redeem shc_sink price (payer_of lib sell_signer tx) x

  drop_commit-Framed :
      (tx : ComputeTx) (op : GameOp V) (x : StateExecutor V) → Framed x (drop_commit lib tx op x).1
  unfolding drop_commit
  drop_commit-Framed tx (GameOp.sell_drop session_id item_id) x =
      pay_price-Framed tx (sell_drop_price lib tx session_id item_id x) x
  drop_commit-Framed tx op x = framed x

  pub commit_drop_sell_effects-Framed :
      (tx : ComputeTx) (x : StateExecutor V) → Framed x (commit_drop_sell_effects lib tx x).1
  unfolding commit_drop_sell_effects
  commit_drop_sell_effects-Framed tx x = elim (Option-cases (game_op lib tx)) [
    | inl e ↦ rw (e, commit_drop_sell_effects) (framed x)
    | inr (op, e) ↦ rw (e, commit_drop_sell_effects) (drop_commit-Framed tx op x)
  ]
