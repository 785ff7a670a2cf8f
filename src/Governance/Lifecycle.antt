-- ===== src/Governance/Lifecycle.antt =====
-- The life of one proposal under any sequence of votes, counts and executions.
use rabbit_chain_node.Prelude.{
  ℕ, ◌+◌, ◌*◌, ◌≤◌, ◌<◌, ◌≡◌, ◌⊎◌, Bool, List, [], ◌∷◌, arith, u128_max,
}
use rabbit_chain_node.Compute.Types.{Text}
use rabbit_chain_node.Governance.{
  ProposalKind, ProposalStatus, Proposal, ok, err, TreasuryLedger, create_proposal, cast_vote,
  tally, outcome_of, execute_proposal,
}

-- An operation on the proposal. An execution finds the ledger as other proposals and the block rewards
-- have left it.
pub data Act (V : Type 0) : Type 0 where
  vote : ℕ → Bool → ℕ → Act V
  close : ℕ → Act V
  execute : TreasuryLedger V → Act V

-- At least half of the stake approves, or so much does that the count overflows.
abbrev pub Approved : {V : Type 0} → Proposal V → Type 0
Approved p =
    (0 < p.votes_for + p.votes_against)
    × ((p.votes_against ≤ p.votes_for) ⊎ (u128_max < p.votes_for * 1000))

-- What the status of a proposal says of its votes.
abbrev pub Backed : {V : Type 0} → ProposalStatus → Proposal V → Type 0
Backed ProposalStatus.passed p = Approved p
Backed ProposalStatus.executed p = Approved p
Backed _ p = Unit

-- The executions that a proposal may still see.
abbrev remaining : ProposalStatus → ℕ
remaining ProposalStatus.active = 1
remaining ProposalStatus.passed = 1
remaining _ = 0

module _ {V : Type 0} where
  abbrev pub act : Act V → Proposal V → Proposal V
  act (vote stake approve now) p = (cast_vote stake approve now p).1
  act (close now) p = (tally now p).1
  act (execute l) p = (execute_proposal p l).1

  abbrev pub history : List (Act V) → Proposal V → Proposal V
  history [] p = p
  history (a ∷ acts) p = history acts (act a p)

  -- The successful executions of a history.
  abbrev succeeded : Act V → Proposal V → ℕ
  succeeded (execute l) p = elim (execute_proposal p l).0 [ ok _ ↦ 1 | err _ ↦ 0 ]
  succeeded _ p = 0

  abbrev pub executions_of : List (Act V) → Proposal V → ℕ
  executions_of [] p = 0
  executions_of (a ∷ acts) p = succeeded a p + executions_of acts (act a p)

  tally-Approved :
      (p : Proposal V) (now : ℕ)
      → p.status ≡ ProposalStatus.active
      → (tally now p).1.status ≡ ProposalStatus.passed
      → Approved (tally now p).1
  unfolding tally
  tally-Approved p now a h = ground arith

  act-Backed : (a : Act V) (p : Proposal V) → Backed p.status p → Backed (act a p).status (act a p)
  unfolding cast_vote tally execute_proposal outcome_of
  act-Backed (vote stake approve now) p h = ground arith
  act-Backed (close now) p h = ground arith
  act-Backed (execute l) p h = ground arith

  history-Backed :
      (acts : List (Act V)) (p : Proposal V)
      → Backed p.status p
      → Backed (history acts p).status (history acts p)
  history-Backed [] p h = h
  history-Backed (a ∷ acts) p h = history-Backed acts (act a p) (act-Backed a p h)

  -- Whatever is voted, counted and executed on a proposal from its creation, it is passed or executed
  -- only with some stake cast and at least half of it for the proposal, unless its approving stake
  -- overflows when it is multiplied by 1000.
  pub create_proposal-Backed :
      (id : Text) (kind : ProposalKind V) (proposer : Text) (deposit created : ℕ) (p : Proposal V)
      (acts : List (Act V))
      → create_proposal id kind proposer deposit created ≡ ok p
      → Backed (history acts p).status (history acts p)
  unfolding create_proposal
  create_proposal-Backed id kind proposer deposit created p acts h =
      history-Backed acts p
        (let active : p.status ≡ ProposalStatus.active = ground arith in rw active tt)

  act-remaining :
      (a : Act V) (p : Proposal V) → succeeded a p + remaining (act a p).status ≤ remaining p.status
  unfolding cast_vote tally execute_proposal outcome_of
  act-remaining (vote stake approve now) p = ground arith
  act-remaining (close now) p = ground arith
  act-remaining (execute l) p = ground arith

  executions_of-remaining :
      (acts : List (Act V)) (p : Proposal V) → executions_of acts p ≤ remaining p.status
  executions_of-remaining [] p = omega arith
  executions_of-remaining (a ∷ acts) p =
      omega (arith, act-remaining a p, executions_of-remaining acts (act a p))

  -- Whatever happens to a proposal, at most one execution of it succeeds, and one does only if the
  -- proposal was active or passed at the start.
  pub executed_once :
      (acts : List (Act V)) (p : Proposal V)
      → (executions_of acts p ≡ 0)
        ⊎ ((executions_of acts p ≡ 1)
            × ((p.status ≡ ProposalStatus.active) ⊎ (p.status ≡ ProposalStatus.passed)))
  executed_once acts p = ground (arith, executions_of-remaining acts p)
