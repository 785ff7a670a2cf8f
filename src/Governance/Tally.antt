-- ===== src/Governance/Tally.antt =====
-- When a proposal passes.
use rabbit_chain_node.Prelude.{ℕ, ◌+◌, ◌*◌, ◌≤◌, ◌<◌, ◌≡◌, ◌↔◌, arith, u128_max}
use rabbit_chain_node.Governance.{ProposalStatus, Proposal, tally}

module _ {V : Type 0} where
  -- While no product overflows, an active proposal passes at a count after its deadline exactly where
  -- some stake was cast and at least half of it approves.
  pub tally_passes_iff :
      (p : Proposal V) (now : ℕ)
      → p.status ≡ ProposalStatus.active
      → p.votes_for * 1000 ≤ u128_max
      → (p.votes_for + p.votes_against) * 500 ≤ u128_max
      → ((tally now p).1.status ≡ ProposalStatus.passed) ↔ (
          (p.deadline_unix < now)
          × (0 < p.votes_for + p.votes_against)
          × (p.votes_against ≤ p.votes_for))
  unfolding tally
  tally_passes_iff p now a small small' = ground arith

  -- Approving stake that overflows when it is multiplied by 1000 passes the proposal after the deadline,
  -- however much stake is against it.
  pub tally_saturates :
      (p : Proposal V) (now : ℕ)
      → p.status ≡ ProposalStatus.active
      → p.deadline_unix < now
      → u128_max ≤ p.votes_for * 1000
      → (tally now p).0 ≡ ProposalStatus.passed
  unfolding tally
  tally_saturates p now a late large = ground arith
