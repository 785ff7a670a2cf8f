-- ===== src/Governance.antt =====
-- Proposals, votes and the treasury ledger (crates/rabbitcore/src/governance.rs). A `String` is the list
-- of its code points. The type of JSON values is a parameter: the crate serde_json declares it.
pub mod Lifecycle
pub mod Tally
pub mod Treasury
mod Tests
use rabbit_chain_node.Prelude.{
  ℕ, ◌+◌, ◌-◌, Bool, true, false, List, [], ◌∷◌, ◌++◌, ltb, leb, ◌==◌, ◌&&◌, if◌then◌else◌,
  sat_add_u64, sat_add_u128, sat_mul_u128,
}
use rabbit_chain_node.Compute.Types.{Text}

abbrev pub vote_window_secs : ℕ
vote_window_secs = 259_200

abbrev pub deposit_sh : ℕ
deposit_sh = 1_000

abbrev pub pass_promille : ℕ
pass_promille = 500

pub data ProposalKind (V : Type 0) : Type 0 where
  update_config : Text → V → ProposalKind V
  fund_activity : ℕ → Text → ProposalKind V
  freeze : Text → Text → ProposalKind V
  add_game_op : Text → Text → ProposalKind V
  mint_shc : Text → ℕ → ProposalKind V

pub data ProposalStatus : Type 0 where
  active passed rejected executed withdrawn : ProposalStatus

pub record Proposal (V : Type 0) : Type 0 where
  pub proposal_id : Text
  pub kind : ProposalKind V
  pub proposer : Text
  pub deposit : ℕ
  pub created_at_unix : ℕ
  pub deadline_unix : ℕ
  pub votes_for : ℕ
  pub votes_against : ℕ
  pub status : ProposalStatus

pub data GovernanceError : Type 0 where
  deposit_too_low : ℕ → ℕ → GovernanceError
  not_active : ProposalStatus → GovernanceError
  expired : GovernanceError
  zero_stake : GovernanceError
  not_passed : ProposalStatus → GovernanceError
  insufficient_treasury : ℕ → ℕ → GovernanceError
  invalid_status_transition : ProposalStatus → GovernanceError

pub data Result {ℓ} (A : Type ℓ) : Type ℓ where
  ok : A → Result A
  err : GovernanceError → Result A

abbrev is_active : ProposalStatus → Bool
is_active ProposalStatus.active = true
is_active _ = false

abbrev pub is_passed : ProposalStatus → Bool
is_passed ProposalStatus.passed = true
is_passed _ = false

pub data LedgerEvent : Type 0 where
  income : Text → ℕ → LedgerEvent
  expense : Text → ℕ → Text → LedgerEvent

pub data ProposalOutcome (V : Type 0) : Type 0 where
  config_updated : Text → V → ProposalOutcome V
  activity_funded : ℕ → Text → Text → ProposalOutcome V
  object_frozen : Text → Text → ProposalOutcome V
  game_op_approved : Text → Text → ProposalOutcome V
  mint_shc_executed : Text → ℕ → ProposalOutcome V

pub record TreasuryLedger (V : Type 0) : Type 0 where
  pub balance : ℕ
  pub events : List LedgerEvent
  pub executions : List (ProposalOutcome V)

abbrev pub activity : Text
activity = b'a' ∷ b'c' ∷ b't' ∷ b'i' ∷ b'v' ∷ b'i' ∷ b't' ∷ b'y' ∷ []

module _ {V : Type 0} where
  unfoldable pub create_proposal : Text → ProposalKind V → Text → ℕ → ℕ → Result (Proposal V)
  create_proposal id kind proposer deposit created_at_unix =
      if ltb deposit deposit_sh
      then err (deposit_too_low deposit deposit_sh)
      else (ok (record {
        proposal_id = id;
        kind = kind;
        proposer = proposer;
        deposit = deposit;
        created_at_unix = created_at_unix;
        deadline_unix = sat_add_u64 created_at_unix vote_window_secs;
        votes_for = 0;
        votes_against = 0;
        status = ProposalStatus.active;
      }))

  -- A function of `&mut Proposal` returns its result and the proposal as it leaves it.
  unfoldable pub cast_vote : ℕ → Bool → ℕ → Proposal V → Result (Unit {0}) × Proposal V
  cast_vote stake approve now p =
      if is_active p.status
      then (if ltb p.deadline_unix now
          then (err expired, p)
          else (if stake == 0
              then (err zero_stake, p)
              else (if approve
                  then (ok tt, record p { votes_for = sat_add_u128 p.votes_for stake })
                  else (ok tt, record p { votes_against = sat_add_u128 p.votes_against stake }))))
      else (err (not_active p.status), p)

  unfoldable pub tally : ℕ → Proposal V → ProposalStatus × Proposal V
  tally now p =
      if is_active p.status
      then (if leb now p.deadline_unix
          then (ProposalStatus.active, p)
          else (let total = sat_add_u128 p.votes_for p.votes_against in
              let threshold = sat_mul_u128 total pass_promille in
              let status =
                if ltb 0 total && leb threshold (sat_mul_u128 p.votes_for 1000)
                then ProposalStatus.passed
                else ProposalStatus.rejected in
              (status, record p { status = status })))
      else (p.status, p)

  unfoldable pub record_income : Text → ℕ → TreasuryLedger V → TreasuryLedger V
  record_income source amount l = record l {
    balance = sat_add_u128 l.balance amount;
    events = l.events ++ (income source amount ∷ []);
  }

  unfoldable pub record_expense :
      Text → ℕ → Text → TreasuryLedger V → Result (Unit {0}) × TreasuryLedger V
  record_expense destination amount memo l =
      if ltb l.balance amount
      then (err (insufficient_treasury l.balance amount), l)
      else ((
        ok tt,
        record l {
          balance = l.balance - amount;
          events = l.events ++ (expense destination amount memo ∷ []);
        },
      ))

  unfoldable pub record_execution : ProposalOutcome V → TreasuryLedger V → TreasuryLedger V
  record_execution outcome l = record l { executions = l.executions ++ (outcome ∷ []) }

  -- What a kind of proposal does to the ledger, and its outcome.
  unfoldable pub outcome_of :
      ProposalKind V → TreasuryLedger V → Result (ProposalOutcome V) × TreasuryLedger V
  outcome_of (fund_activity amount memo) l =
      let (r, l') = record_expense activity amount memo l in
      elim r [
        | ok _ ↦ (ok (activity_funded amount activity memo), l')
        | err _ ↦ (err (insufficient_treasury l'.balance amount), l')
      ]
  outcome_of (update_config object params) l = (ok (config_updated object params), l)
  outcome_of (freeze object_id reason) l = (ok (object_frozen object_id reason), l)
  outcome_of (add_game_op op_name description) l = (ok (game_op_approved op_name description), l)
  outcome_of (mint_shc to amount) l = (ok (mint_shc_executed to amount), l)

  unfoldable pub execute_proposal :
      Proposal V → TreasuryLedger V → Result (ProposalOutcome V) × Proposal V × TreasuryLedger V
  execute_proposal p l =
      if is_passed p.status
      then (let (r, l') = outcome_of p.kind l in
          elim r [
            | ok outcome ↦ (ok outcome, record p { status = ProposalStatus.executed }, l')
            | err e ↦ (err e, p, l')
          ])
      else (err (not_passed p.status), p, l)

-- `TreasuryLedger::new`
abbrev pub new : {V : Type 0} → TreasuryLedger V
new = record { balance = 0; events = []; executions = [] }
