-- ===== src/Governance/Treasury.antt =====
-- The treasury ledger against its events.
use rabbit_chain_node.Prelude.{
  ℕ, ◌+◌, ◌≤◌, ◌<◌, ◌≡◌, ◌≢◌, ◌⊎◌, inl, List, [], ◌∷◌, ◌++◌, arith, u128_max,
}
use rabbit_chain_node.Compute.Types.{Text}
use rabbit_chain_node.Governance.{
  ProposalKind, ProposalStatus, Proposal, err, LedgerEvent, income, expense, TreasuryLedger,
  ProposalOutcome, fund_activity, activity, record_income, record_expense, record_execution,
  outcome_of, execute_proposal, new, not_passed, insufficient_treasury,
}

abbrev pub earned : List LedgerEvent → ℕ
earned [] = 0
earned (income _ n ∷ es) = n + earned es
earned (expense _ _ _ ∷ es) = earned es

abbrev pub spent : List LedgerEvent → ℕ
spent [] = 0
spent (income _ _ ∷ es) = spent es
spent (expense _ n _ ∷ es) = n + spent es

earned-append : (es fs : List LedgerEvent) → earned (es ++ fs) ≡ earned es + earned fs
earned-append [] fs = omega arith
earned-append (income s n ∷ es) fs = omega (arith, earned-append es fs)
earned-append (expense d n m ∷ es) fs = omega (arith, earned-append es fs)

spent-append : (es fs : List LedgerEvent) → spent (es ++ fs) ≡ spent es + spent fs
spent-append [] fs = omega arith
spent-append (income s n ∷ es) fs = omega (arith, spent-append es fs)
spent-append (expense d n m ∷ es) fs = omega (arith, spent-append es fs)

-- One use of the ledger by the node.
pub data Entry (V : Type 0) : Type 0 where
  takes : Text → ℕ → Entry V
  pays : Text → ℕ → Text → Entry V
  executes : Proposal V → Entry V
  notes : ProposalOutcome V → Entry V

module _ {V : Type 0} where
  abbrev pub book : Entry V → TreasuryLedger V → TreasuryLedger V
  book (takes source n) l = record_income source n l
  book (pays to n memo) l = (record_expense to n memo l).1
  book (executes p) l = (execute_proposal p l).2
  book (notes outcome) l = record_execution outcome l

  abbrev pub book_all : List (Entry V) → TreasuryLedger V → TreasuryLedger V
  book_all [] l = l
  book_all (e ∷ es) l = book_all es (book e l)

  -- The balance is what the events earned less what they spent, up to what saturation lost.
  abbrev IsBalanced : TreasuryLedger V → Type 0
  IsBalanced l =
      (l.balance + spent l.events ≤ earned l.events)
      × ((l.balance + spent l.events ≡ earned l.events) ⊎ (u128_max < earned l.events))

  record_income-IsBalanced :
      (source : Text) (n : ℕ) (l : TreasuryLedger V)
      → IsBalanced l
      → IsBalanced (record_income source n l)
  unfolding record_income
  record_income-IsBalanced source n l h =
      let e = earned-append l.events (income source n ∷ []) in
      let s = spent-append l.events (income source n ∷ []) in ground arith

  record_expense-IsBalanced :
      (to : Text) (n : ℕ) (memo : Text) (l : TreasuryLedger V)
      → IsBalanced l
      → IsBalanced (record_expense to n memo l).1
  unfolding record_expense
  record_expense-IsBalanced to n memo l h =
      let e = earned-append l.events (expense to n memo ∷ []) in
      let s = spent-append l.events (expense to n memo ∷ []) in ground arith

  outcome_of-fund_activity :
      (n : ℕ) (memo : Text) (l : TreasuryLedger V)
      → (outcome_of (fund_activity n memo) l).1 ≡ (record_expense activity n memo l).1
  unfolding outcome_of record_expense
  outcome_of-fund_activity n memo l = ground arith

  -- The ledger after an execution is the ledger before it, but for what a funded activity is paid.
  outcome_of-IsBalanced :
      (kind : ProposalKind V) (l : TreasuryLedger V)
      → IsBalanced l
      → IsBalanced (outcome_of kind l).1
  outcome_of-IsBalanced (fund_activity n memo) l h =
      rw (outcome_of-fund_activity n memo l) (record_expense-IsBalanced activity n memo l h)
  outcome_of-IsBalanced (ProposalKind.update_config o v) l h = unfold outcome_of in h
  outcome_of-IsBalanced (ProposalKind.freeze o r) l h = unfold outcome_of in h
  outcome_of-IsBalanced (ProposalKind.add_game_op o d) l h = unfold outcome_of in h
  outcome_of-IsBalanced (ProposalKind.mint_shc to n) l h = unfold outcome_of in h

  execute_proposal-IsBalanced :
      (p : Proposal V) (l : TreasuryLedger V) → IsBalanced l → IsBalanced (execute_proposal p l).2
  unfolding execute_proposal
  execute_proposal-IsBalanced p l h = ground (arith, outcome_of-IsBalanced p.kind l h)

  book-IsBalanced : (e : Entry V) (l : TreasuryLedger V) → IsBalanced l → IsBalanced (book e l)
  book-IsBalanced (takes source n) l h = record_income-IsBalanced source n l h
  book-IsBalanced (pays to n memo) l h = record_expense-IsBalanced to n memo l h
  book-IsBalanced (executes p) l h = execute_proposal-IsBalanced p l h
  book-IsBalanced (notes outcome) l h = unfold record_execution in h

  book_all-IsBalanced :
      (es : List (Entry V)) (l : TreasuryLedger V) → IsBalanced l → IsBalanced (book_all es l)
  book_all-IsBalanced [] l h = h
  book_all-IsBalanced (e ∷ es) l h = book_all-IsBalanced es (book e l) (book-IsBalanced e l h)

  -- The ledger never pays out more than it took in. While its events earned no more than the largest
  -- `u128`, its balance is exactly what they earned less what they spent.
  pub ledger-IsBalanced : (es : List (Entry V)) → IsBalanced (book_all es new)
  ledger-IsBalanced es = book_all-IsBalanced es new (omega arith, inl (omega arith))

  -- A passed proposal that asks for a payment the treasury cannot make fails, and neither the proposal
  -- nor the ledger changes; one that the treasury can make is charged in full and ends executed. A
  -- proposal with another status fails and changes nothing.
  pub execute_proposal-pays :
      (p : Proposal V) (l : TreasuryLedger V) (n : ℕ) (memo : Text)
      → p.kind ≡ fund_activity n memo
      → ((p.status ≢ ProposalStatus.passed)
          × (execute_proposal p l ≡ (err (not_passed p.status), p, l)))
        ⊎ ((p.status ≡ ProposalStatus.passed)
            × (l.balance < n)
            × (execute_proposal p l ≡ (err (insufficient_treasury l.balance n), p, l)))
        ⊎ ((p.status ≡ ProposalStatus.passed)
            × ((execute_proposal p l).1.status ≡ ProposalStatus.executed)
            × ((execute_proposal p l).2.balance + n ≡ l.balance))
  unfolding execute_proposal
  execute_proposal-pays p l n memo kind = rw kind (unfold outcome_of record_expense in ground arith)
