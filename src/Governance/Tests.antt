-- ===== src/Governance/Tests.antt =====
-- Runs of the governance rules.
use rabbit_chain_node.Prelude.{
  ℕ, ◌+◌, ◌≤◌, ◌<◌, ◌≡◌, ◌⊎◌, refl, true, false, List, [], ◌∷◌, u128_max,
}
use rabbit_chain_node.Governance.{
  ProposalStatus, Proposal, ok, TreasuryLedger, create_proposal, cast_vote, tally, record_expense,
  outcome_of, execute_proposal, new, fund_activity,
}
use rabbit_chain_node.Governance.Lifecycle.{
  Act, vote, close, history, executions_of, Backed, create_proposal-Backed, executed_once,
}
use rabbit_chain_node.Governance.Treasury.{
  Entry, takes, pays, book_all, earned, spent, ledger-IsBalanced,
}

-- A proposal to pay 40 for an activity; JSON values are texts here.
abbrev opened : Proposal (List ℕ)
opened = record {
  proposal_id = b'p' ∷ [];
  kind = fund_activity 40 [];
  proposer = b'a' ∷ [];
  deposit = 1000;
  created_at_unix = 5;
  deadline_unix = 259_205;
  votes_for = 0;
  votes_against = 0;
  status = ProposalStatus.active;
}

abbrev voted : Proposal (List ℕ)
voted = record opened { votes_for = 3; votes_against = 2 }

abbrev accepted : Proposal (List ℕ)
accepted = record voted { status = ProposalStatus.passed }

abbrev funded : TreasuryLedger (List ℕ)
funded = record { balance = 100; events = []; executions = [] }

abbrev acts : List (Act (List ℕ))
acts =
    vote 3 true 10 ∷ vote 2 false 20 ∷ close 300_000 ∷ Act.execute funded ∷ Act.execute funded ∷ []

creates :
    create_proposal {V = List ℕ} (b'p' ∷ []) (fund_activity 40 []) (b'a' ∷ []) 1000 5 ≡ ok opened
unfolding create_proposal
creates = refl

create_proposal-Backed_example : Backed (history acts opened).status (history acts opened)
create_proposal-Backed_example =
    create_proposal-Backed (b'p' ∷ []) (fund_activity 40 []) (b'a' ∷ []) 1000 5 opened acts creates

executed_once_example :
    (executions_of acts opened ≡ 0)
    ⊎ ((executions_of acts opened ≡ 1)
        × ((ProposalStatus.active ≡ ProposalStatus.active)
            ⊎ (ProposalStatus.active ≡ ProposalStatus.passed)))
executed_once_example = executed_once acts opened

-- The history does execute the proposal.
runs_once : executions_of acts opened ≡ 1
unfolding cast_vote tally execute_proposal outcome_of record_expense
runs_once = refl

abbrev entries : List (Entry (List ℕ))
entries = takes [] 100 ∷ pays [] 70 [] ∷ Entry.executes accepted ∷ pays [] 20 [] ∷ []

abbrev booked : TreasuryLedger (List ℕ)
booked = book_all entries new

ledger-IsBalanced_example :
    (booked.balance + spent booked.events ≤ earned booked.events)
    × ((booked.balance + spent booked.events ≡ earned booked.events)
        ⊎ (u128_max < earned booked.events))
ledger-IsBalanced_example = ledger-IsBalanced entries
