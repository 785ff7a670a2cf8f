-- ===== src/Compute/Executor/History.antt =====
-- Any sequence of executions, successful and failing: what is spent stays spent.
use rabbit_chain_node.Prelude.{ℕ, ◌≡◌, ◌≢◌, refl, inl, inr, true, List, [], ◌∷◌, contains, arith}
use rabbit_chain_node.Compute.Types.{Hash, ComputeTx, ok}
use rabbit_chain_node.Compute.Results.{ComputeResult-cases}
use rabbit_chain_node.Compute.Store.{ObjectStore, set_spent}
use rabbit_chain_node.Compute.Validate.{Backends, ValidationReport, validate}
use rabbit_chain_node.Compute.Executor.{
  Encoders, Executor, spend_all, insert_all, commit_store, commit_prevalidated,
  register_replay_nonce, execute,
}
use rabbit_chain_node.Compute.Executor.Commit.{IsSpent, spend_all-IsSpent, insert_all_keeps}
use rabbit_chain_node.Compute.Executor.Effects.{execute-Effect}

insert_all-IsSpent :
    (j : Hash) (tx : ComputeTx) (s : ObjectStore)
    → IsSpent j s
    → IsSpent j (insert_all tx.output_proposals s).1
insert_all-IsSpent j tx s v = record {
  output = v.output;
  found = insert_all_keeps j v.output tx.output_proposals s v.found;
  spent = v.spent;
}

pub commit_store-IsSpent :
    (j : Hash) (tx : ComputeTx) (report : ValidationReport) (s : ObjectStore)
    → IsSpent j s
    → IsSpent j (commit_store tx report s).1
unfolding commit_store
commit_store-IsSpent j tx report s v =
    let after = spend_all-IsSpent j tx.input_set s v in
    elim (ComputeResult-cases (spend_all tx.input_set s).0) [
      | inr (f, e) ↦ rw (e, commit_store) after
      | inl (u, e) ↦
          elim (ComputeResult-cases
            (insert_all tx.output_proposals (spend_all tx.input_set s).1).0) [
              | inr (f, g) ↦ rw (e, commit_store) (rw g (insert_all-IsSpent j tx _ after))
              | inl (w, g) ↦ rw (e, commit_store) (rw g (insert_all-IsSpent j tx _ after))
            ]
    ]

-- An execution, whatever its result, leaves spent outputs spent.
pub execute-IsSpent :
    (e : Encoders) (b : Backends) (now : ℕ) (tx : ComputeTx) (x : Executor) (j : Hash)
    → IsSpent j x.store
    → IsSpent j (execute e b now tx x).1.store
unfolding execute commit_prevalidated
execute-IsSpent e b now tx x j v = elim (ComputeResult-cases (validate b x.store tx)) [
  | inr (f, h) ↦ rw (h, execute) v
  | inl (report, h) ↦
      elim (ComputeResult-cases (register_replay_nonce e now tx x.replay_nonce_registry).0) [
        | inr (f, g) ↦ rw (h, execute) (rw (g, commit_prevalidated) v)
        | inl (u, g) ↦
            rw (h, execute)
              (rw (g, commit_prevalidated) (commit_store-IsSpent j tx report x.store v))
      ]
]

-- The executor after a sequence of attempts, each with its time.
unfoldable pub run : Encoders → Backends → List (ℕ × ComputeTx) → Executor → Executor
run e b [] x = x
run e b ((now, tx) ∷ events) x = run e b events (execute e b now tx x).1

pub run-IsSpent :
    (e : Encoders) (b : Backends) (events : List (ℕ × ComputeTx)) (x : Executor) (j : Hash)
    → IsSpent j x.store
    → IsSpent j (run e b events x).store
unfolding run
run-IsSpent e b [] x j v = v
run-IsSpent e b ((now, tx) ∷ events) x j v =
    run-IsSpent e b events (execute e b now tx x).1 j (execute-IsSpent e b now tx x j v)

-- No double spend: once a transaction has executed successfully, no transaction that names one of its
-- inputs ever executes successfully again, whatever was attempted in between.
pub no_double_spend :
    (e : Encoders) (b : Backends) (now later : ℕ) (tx tx' : ComputeTx) (x x' : Executor)
    (r r' : ValidationReport) (events : List (ℕ × ComputeTx)) (id : Hash)
    → execute e b now tx x ≡ (ok r, x')
    → contains tx.input_set id ≡ true
    → contains tx'.input_set id ≡ true
    → (execute e b later tx' (run e b events x')).0 ≢ ok r'
no_double_spend e b now later tx tx' x x' r r' events id h mine yours again =
    let first = (execute-Effect e b now tx x x' r h).consumed id mine in
    let spent : IsSpent id (run e b events x').store =
      run-IsSpent e b events x' id
        (record { output = set_spent true first.output; found = first.after; spent = refl }) in
    let y = run e b events x' in
    let y' = (execute e b later tx' y).1 in
    let effect = execute-Effect e b later tx' y y' r' (λ i. (again i, y')) in
    let second = effect.consumed id yours in
    ground (arith, spent.found, spent.spent, second.before, second.live)
