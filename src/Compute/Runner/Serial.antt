-- ===== src/Compute/Runner/Serial.antt =====
-- What the runner does with one transaction.
use rabbit_chain_node.Prelude.{ℕ, ◌≤◌, ◌≡◌, refl, ap, ◌∙◌, inl, inr, List, [], ◌∷◌, length, arith}
use rabbit_chain_node.Compute.Types.{ComputeTx, TxSignature, ok}
use rabbit_chain_node.Compute.Results.{ComputeResult-cases}
use rabbit_chain_node.Compute.Store.{ObjectStore}
use rabbit_chain_node.Compute.Validate.{Backends, ValidationReport, validate}
use rabbit_chain_node.Compute.Executor.{
  Encoders, execute, commit_prevalidated, commit_store, register_replay_nonce, register_actors,
  replay_actors, actors_of, sort_dedup, insert_sorted, retain_window,
}
use rabbit_chain_node.Compute.Batch.{PendingComputeTx, PlannedComputeTx}
use rabbit_chain_node.Compute.Runner.{outcome_of, new_executor, run_single, run_serial, run_planned}

-- The queue entry carries the identifier of its transaction, as `PendingComputeTx::new` makes it.
abbrev pub IsLabelled : PendingComputeTx → Type 0
IsLabelled p = p.tx_id ≡ p.tx.tx_id

module _ (e : Encoders) (b : Backends) (now : ℕ) where
  run_planned-execute :
      (planned : PlannedComputeTx) (s : ObjectStore)
      → run_planned e b now planned s ≡ (
        outcome_of planned.pending.tx_id planned.pending.tx
            (execute e b now planned.pending.tx (new_executor s)).0,
        (execute e b now planned.pending.tx (new_executor s)).1.store,
      )
  unfolding run_planned execute commit_prevalidated
  run_planned-execute planned s = elim (ComputeResult-cases (validate b s planned.pending.tx)) [
    | inl (report, h) ↦ ground arith
    | inr (f, h) ↦ ground arith
  ]

  -- A worker alone does with a planned transaction what the serial run does with its queue entry.
  pub run_planned-serial :
      (planned : PlannedComputeTx) (s : ObjectStore)
      → IsLabelled planned.pending
      → run_planned e b now planned s ≡ run_serial e b now planned.pending s
  unfolding run_serial run_single
  run_planned-serial planned s label =
      run_planned-execute planned s
      ∙ ap
          (λ id. (
            outcome_of id planned.pending.tx
                (execute e b now planned.pending.tx (new_executor s)).0,
            (execute e b now planned.pending.tx (new_executor s)).1.store,
          ))
          label

  one_actor_registers :
      (tx : ComputeTx) (sigs : List TxSignature)
      → tx.witness.signatures ≡ sigs
      → length sigs ≤ 1
      → (register_replay_nonce e now tx []).0 ≡ ok tt
  unfolding register_replay_nonce register_actors replay_actors actors_of sort_dedup insert_sorted
      retain_window
  one_actor_registers tx [] t h = ground (arith, t)
  one_actor_registers tx (sig ∷ []) t h = ground (arith, t)
  one_actor_registers tx (sig ∷ sig' ∷ sigs) t h = absurd (omega arith)

  -- The runner makes a new executor for each transaction, with an empty registry of nonces. A transaction of
  -- one signature at most that validates and whose writes to the store succeed is accepted, whatever nonces
  -- the transactions before it used.
  pub run_single-reuses_nonce :
      (tx : ComputeTx) (s t : ObjectStore) (r : ValidationReport)
      → length tx.witness.signatures ≤ 1
      → validate b s tx ≡ ok r
      → commit_store tx r s ≡ (ok r, t)
      → run_single e b now tx s ≡ (outcome_of tx.tx_id tx (ok r), t)
  unfolding run_single execute commit_prevalidated
  run_single-reuses_nonce tx s t r one valid committed =
      let registered = one_actor_registers tx tx.witness.signatures refl one in
      ground (arith, registered)
