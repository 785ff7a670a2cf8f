-- ===== src/State/Rewards.antt =====
-- What tower claims and sales of drops do to the treasury (state/executor.rs): the
-- check before the execution of a transaction, and the commit after it.
use rabbit_chain_node.Prelude.{
  ℕ, ◌%◌, ◌^◌, Bool, true, not, [], ◌∷◌, Option, none, some, ltb, ◌==◌, ◌||◌, list_eq, unwrap_or,
}
use rabbit_chain_node.Compute.Types.{Address, Text, ComputeTx}
use rabbit_chain_node.Compute.Store.{get_output}
use rabbit_chain_node.Governance.{
  Proposal, ProposalKind, ProposalStatus, ProposalOutcome, TreasuryLedger, GovernanceError, tally,
  execute_proposal, record_execution, record_expense, is_passed,
}
use rabbit_chain_node.State.{shc_token}
use rabbit_chain_node.State.Executor.{
  GameOp, tower_rejected, tower_signer, sell_signer, insufficient_for_tower, insufficient_for_sale,
  ExecutionError, ledger_expense, missing_drop, drop_not_found, drop_spent, invalid_drop,
  drop_mismatch, drop_worthless, Result, ok, err, ◌>>=◌, required, refuse_if, StateExecutor,
  tower_reward_shc,
}
use rabbit_chain_node.State.Executor.Money.{credit_token, debit_treasury, treasury_balance}
use rabbit_chain_node.State.Game.{Libraries, verify_tower_claim}
use rabbit_chain_node.State.Governed.{first_input}
use rabbit_chain_node.State.Payments.{game_op, payer_of}

-- "tower_reward"
abbrev pub tower_reward : Text
tower_reward =
    b't' ∷ b'o' ∷ b'w' ∷ b'e' ∷ b'r' ∷ b'_' ∷ b'r' ∷ b'e' ∷ b'w' ∷ b'a' ∷ b'r' ∷ b'd' ∷ []

-- "zk summary reward"
abbrev pub zk_summary_reward : Text
zk_summary_reward =
    b'z' ∷ b'k' ∷ b' ' ∷ b's' ∷ b'u' ∷ b'm' ∷ b'm' ∷ b'a' ∷ b'r' ∷ b'y' ∷ b' ' ∷ b'r' ∷ b'e' ∷ b'w'
    ∷ b'a' ∷ b'r' ∷ b'd' ∷ []

-- "drop_redeem"
abbrev pub drop_redeem : Text
drop_redeem = b'd' ∷ b'r' ∷ b'o' ∷ b'p' ∷ b'_' ∷ b'r' ∷ b'e' ∷ b'd' ∷ b'e' ∷ b'e' ∷ b'm' ∷ []

-- "shc sink -> player"
abbrev pub shc_sink : Text
shc_sink =
    b's' ∷ b'h' ∷ b'c' ∷ b' ' ∷ b's' ∷ b'i' ∷ b'n' ∷ b'k' ∷ b' ' ∷ b'-' ∷ b'>' ∷ b' ' ∷ b'p' ∷ b'l'
    ∷ b'a' ∷ b'y' ∷ b'e' ∷ b'r' ∷ []

-- "kind"
abbrev pub kind_key : Text
kind_key = b'k' ∷ b'i' ∷ b'n' ∷ b'd' ∷ []

-- "session_id"
abbrev session_id_key : Text
session_id_key = b's' ∷ b'e' ∷ b's' ∷ b's' ∷ b'i' ∷ b'o' ∷ b'n' ∷ b'_' ∷ b'i' ∷ b'd' ∷ []

-- "item_id"
abbrev item_id_key : Text
item_id_key = b'i' ∷ b't' ∷ b'e' ∷ b'm' ∷ b'_' ∷ b'i' ∷ b'd' ∷ []

-- "price_shc"
abbrev price_key : Text
price_key = b'p' ∷ b'r' ∷ b'i' ∷ b'c' ∷ b'e' ∷ b'_' ∷ b's' ∷ b'h' ∷ b'c' ∷ []

-- "action_drop"
abbrev action_drop : Text
action_drop = b'a' ∷ b'c' ∷ b't' ∷ b'i' ∷ b'o' ∷ b'n' ∷ b'_' ∷ b'd' ∷ b'r' ∷ b'o' ∷ b'p' ∷ []

-- `!= Some(text)`
abbrev pub differs : Option Text → Text → Bool
differs none text = true
differs (some found) text = not (list_eq found text)

module _ {V T M P : Type 0} (lib : Libraries V T M P) where
  -- `(treasury_shc as u64) < amount`
  abbrev pub affordable : (ℕ → ℕ → ExecutionError) → ℕ → StateExecutor V → Result (Unit {0})
  affordable failure amount x =
      refuse_if (ltb (treasury_balance x % 2 ^ 64) amount) (failure (treasury_balance x) amount)

  unfoldable pub tower_check : GameOp V → StateExecutor V → Result (Unit {0})
  tower_check (GameOp.zk_tower_claim growth a b c claimed_final proof) x =
      required (verify_tower_claim lib growth a b c claimed_final proof)
        (tower_rejected growth a b c claimed_final proof)
      >>= λ reward. affordable insufficient_for_tower reward x
  tower_check op x = ok tt

  unfoldable pub apply_zk_tower_effects : ComputeTx → StateExecutor V → Result (Unit {0})
  apply_zk_tower_effects tx x = elim (game_op lib tx) [ none ↦ ok tt | some op ↦ tower_check op x ]

  -- The treasury pays `payer`, and the ledger notes it.
  unfoldable pub pay_out :
      Text → Text → ℕ → Result Address → StateExecutor V → Result (Unit {0}) × StateExecutor V
  pay_out destination memo amount (err failure) x = (err failure, x)
  pay_out destination memo amount (ok payer) x =
      let (debited, x') = debit_treasury amount x in
      elim debited [
        | err failure ↦ (err failure, x')
        | ok _ ↦
            let (booked, ledger) = record_expense destination amount memo x'.ledger in
            let x'' : StateExecutor V = record x' {
              state_db = credit_token payer shc_token amount x'.state_db;
              ledger = ledger;
            } in
            elim booked [
              | rabbit_chain_node.Governance.err e ↦ (err (ledger_expense e), x'')
              | rabbit_chain_node.Governance.ok _ ↦ (ok tt, x'')
            ]
      ]

  unfoldable pub tower_commit :
      ComputeTx → GameOp V → StateExecutor V → Result (Unit {0}) × StateExecutor V
  tower_commit tx (GameOp.zk_tower_claim growth a b c claimed_final proof) x =
      pay_out tower_reward zk_summary_reward (tower_reward_shc claimed_final)
        (payer_of lib tower_signer tx) x
  tower_commit tx op x = (ok tt, x)

  unfoldable pub commit_zk_tower_effects :
      ComputeTx → StateExecutor V → Result (Unit {0}) × StateExecutor V
  commit_zk_tower_effects tx x = elim (game_op lib tx) [
    | none ↦ (ok tt, x)
    | some op ↦ tower_commit tx op x
  ]

  unfoldable pub drop_state_price : Text → Text → V → Result ℕ
  drop_state_price session_id item_id state =
      refuse_if
        (differs (lib.get_str kind_key state) action_drop
          || (differs (lib.get_str session_id_key state) session_id
              || differs (lib.get_str item_id_key state) item_id))
        drop_mismatch
      >>= λ _.
          let price = unwrap_or (lib.get_u64 price_key state) 0 in
          refuse_if (price == 0) drop_worthless >>= λ _. ok price

  unfoldable pub sell_drop_price : ComputeTx → Text → Text → StateExecutor V → Result ℕ
  sell_drop_price tx session_id item_id x = required (first_input tx) missing_drop >>= λ input.
      required (get_output input x.compute_store) drop_not_found >>= λ obj.
      required (lib.parse_value obj.state) (invalid_drop obj.state) >>= λ state.
      drop_state_price session_id item_id state

  unfoldable pub drop_check : ComputeTx → GameOp V → StateExecutor V → Result (Unit {0})
  drop_check tx (GameOp.sell_drop session_id item_id) x =
      required (first_input tx) missing_drop >>= λ input.
      required (get_output input x.compute_store) drop_not_found >>= λ obj.
      refuse_if obj.spent drop_spent >>= λ _.
      sell_drop_price tx session_id item_id x >>= λ price. affordable insufficient_for_sale price x
  drop_check tx op x = ok tt

  unfoldable pub apply_drop_sell_effects : ComputeTx → StateExecutor V → Result (Unit {0})
  apply_drop_sell_effects tx x = elim (game_op lib tx) [
    | none ↦ ok tt
    | some op ↦ drop_check tx op x
  ]

  unfoldable pub pay_price :
      ComputeTx → Result ℕ → StateExecutor V → Result (Unit {0}) × StateExecutor V
  pay_price tx (err failure) x = (err failure, x)
  pay_price tx (ok price) x = pay_out drop_redeem shc_sink price (payer_of lib sell_signer tx) x

  unfoldable pub drop_commit :
      ComputeTx → GameOp V → StateExecutor V → Result (Unit {0}) × StateExecutor V
  drop_commit tx (GameOp.sell_drop session_id item_id) x =
      pay_price tx (sell_drop_price tx session_id item_id x) x
  drop_commit tx op x = (ok tt, x)

  unfoldable pub commit_drop_sell_effects :
      ComputeTx → StateExecutor V → Result (Unit {0}) × StateExecutor V
  commit_drop_sell_effects tx x = elim (game_op lib tx) [
    | none ↦ (ok tt, x)
    | some op ↦ drop_commit tx op x
  ]
