-- ===== src/State/Governed.antt =====
-- What passed proposals do to the treasury (state/executor.rs): the
-- check before the execution of a transaction, and the commit after it.
use rabbit_chain_node.Prelude.{ℕ, not, [], ◌∷◌, Option, none, some, ltb, if◌then◌else◌}
use rabbit_chain_node.Compute.Types.{Hash, Text, ComputeTx}
use rabbit_chain_node.Compute.Store.{get_output, get_latest_output_by_object}
use rabbit_chain_node.Compute.Policy.Authorization.{from_be_bytes}
use rabbit_chain_node.Governance.{
  Proposal, ProposalKind, ProposalStatus, ProposalOutcome, TreasuryLedger, GovernanceError, tally,
  execute_proposal, record_execution, record_expense, is_passed,
}
use rabbit_chain_node.State.{shc_token}
use rabbit_chain_node.State.Executor.{
  GameOp, missing_proposal, proposal_not_found, invalid_proposal, proposal_not_passed,
  commit_not_passed, insufficient_treasury_balance, mint_denied, commit_failed,
  mint_policy_not_found, invalid_mint_policy, Result, ok, err, ◌>>=◌, required, refuse_if,
  MintPolicy, StateExecutor,
}
use rabbit_chain_node.State.Executor.Money.{credit_token, debit_treasury, treasury_balance, with_db}
use rabbit_chain_node.State.Game.{Libraries}
use rabbit_chain_node.State.Payments.{game_op, parse_address_hex}

-- "shanhai/config/mint"
abbrev mint_policy_name : Text
mint_policy_name =
    b's' ∷ b'h' ∷ b'a' ∷ b'n' ∷ b'h' ∷ b'a' ∷ b'i' ∷ b'/' ∷ b'c' ∷ b'o' ∷ b'n' ∷ b'f' ∷ b'i' ∷ b'g'
    ∷ b'/' ∷ b'm' ∷ b'i' ∷ b'n' ∷ b't' ∷ []

-- `tx.input_set.first()`
abbrev pub first_input : ComputeTx → Option Hash
first_input tx = elim tx.input_set [ [] ↦ none | id ∷ ids ↦ some id ]

module _ {V T M P : Type 0} (lib : Libraries V T M P) where
  unfoldable pub input_proposal : ComputeTx → StateExecutor V → Result (Proposal V)
  input_proposal tx x = required (first_input tx) missing_proposal >>= λ input.
      required (get_output input x.compute_store) proposal_not_found >>= λ obj.
      required (lib.parse_proposal obj.state) (invalid_proposal obj.state)

  abbrev pub mint_policy_object_id : Hash
  mint_policy_object_id = from_be_bytes 0 (lib.keccak256 mint_policy_name)

  unfoldable pub mint_policy : StateExecutor V → Result MintPolicy
  mint_policy x =
      required (get_latest_output_by_object mint_policy_object_id x.compute_store)
        mint_policy_not_found
      >>= λ obj. required (lib.parse_mint_policy obj.state) (invalid_mint_policy obj.state)

  -- What the kind of a passed proposal still needs.
  unfoldable pub check_kind : ProposalKind V → StateExecutor V → Result (Unit {0})
  check_kind (ProposalKind.fund_activity amount memo) x =
      refuse_if (ltb (treasury_balance x) amount)
        (insufficient_treasury_balance (treasury_balance x) amount)
  check_kind (ProposalKind.mint_shc to amount) x = mint_policy x >>= λ policy.
      refuse_if (ltb policy.per_mint_cap amount) (mint_denied amount policy.per_mint_cap)
  check_kind kind x = ok tt

  unfoldable pub governance_check : ComputeTx → ℕ → GameOp V → StateExecutor V → Result (Unit {0})
  governance_check tx block_timestamp GameOp.execute x = input_proposal tx x >>= λ proposal.
      refuse_if (not (is_passed (tally block_timestamp proposal).0)) proposal_not_passed >>= λ _.
      check_kind proposal.kind x
  governance_check tx block_timestamp op x = ok tt

  unfoldable pub apply_governance_effects : ComputeTx → ℕ → StateExecutor V → Result (Unit {0})
  apply_governance_effects tx block_timestamp x = elim (game_op lib tx) [
    | none ↦ ok tt
    | some op ↦ governance_check tx block_timestamp op x
  ]

  -- The money that a kind of proposal moves.
  unfoldable pub pay_kind : ProposalKind V → StateExecutor V → Result (Unit {0}) × StateExecutor V
  pay_kind (ProposalKind.fund_activity amount memo) x = debit_treasury amount x
  pay_kind (ProposalKind.mint_shc to amount) x = elim (parse_address_hex lib to) [
    | err failure ↦ (err failure, x)
    | ok target ↦ (ok tt, with_db (credit_token target shc_token amount x.state_db) x)
  ]
  pay_kind kind x = (ok tt, x)

  -- The entry in the ledger.
  unfoldable pub book_proposal : Proposal V → StateExecutor V → Result (Unit {0}) × StateExecutor V
  book_proposal p x =
      let (r, p', ledger) = execute_proposal p x.ledger in
      elim r [
        | rabbit_chain_node.Governance.err e ↦ (err (commit_failed e), record x { ledger = ledger })
        | rabbit_chain_node.Governance.ok outcome ↦
            (ok tt, record x { ledger = record_execution outcome ledger })
      ]

  unfoldable pub commit_proposal :
      Result (Proposal V) → ℕ → StateExecutor V → Result (Unit {0}) × StateExecutor V
  commit_proposal (err failure) block_timestamp x = (err failure, x)
  commit_proposal (ok proposal) block_timestamp x =
      let (status, p) = tally block_timestamp proposal in
      if not (is_passed status)
      then (err commit_not_passed, x)
      else (let (paid, x') = pay_kind p.kind x in
          elim paid [ err failure ↦ (err failure, x') | ok _ ↦ book_proposal p x' ])

  unfoldable pub governance_commit :
      ComputeTx → ℕ → GameOp V → StateExecutor V → Result (Unit {0}) × StateExecutor V
  governance_commit tx block_timestamp GameOp.execute x =
      commit_proposal (input_proposal tx x) block_timestamp x
  governance_commit tx block_timestamp op x = (ok tt, x)

  unfoldable pub commit_governance_effects :
      ComputeTx → ℕ → StateExecutor V → Result (Unit {0}) × StateExecutor V
  commit_governance_effects tx block_timestamp x = elim (game_op lib tx) [
    | none ↦ (ok tt, x)
    | some op ↦ governance_commit tx block_timestamp op x
  ]
