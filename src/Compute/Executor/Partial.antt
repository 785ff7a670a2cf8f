-- ===== src/Compute/Executor/Partial.antt =====
-- A commit is not atomic: what a transaction with a repeated input does.
use rabbit_chain_node.Prelude.{ℕ, ◌≡◌, ◌==◌, if◌then◌else◌, some, refl, true, List, [], ◌∷◌, arith}
use rabbit_chain_node.Compute.Types.{
  Hash, ObjectOutput, ComputeTx, ok, err, invalid_operation, Reason,
}
use rabbit_chain_node.Compute.Store.{ObjectStore, get_output, mark_spent, set_spent}
use rabbit_chain_node.Compute.Store.Laws.{
  get_output-mark_spent, mark_spent_live, mark_spent_total, mark_spent_twice,
}
use rabbit_chain_node.Compute.Validate.{Backends, ValidationReport, validate}
use rabbit_chain_node.Compute.Validate.Sound.{validate-Accepted, Resolves}
use rabbit_chain_node.Compute.Executor.{
  Encoders, Executor, Registry, spend_all, commit_store, commit_prevalidated, register_replay_nonce,
  execute,
}
use rabbit_chain_node.Compute.Executor.Commit.{IsSpent}

first_input_live :
    (s : ObjectStore) (domain : ℕ) (id : Hash) (ids : List Hash) (r : ValidationReport)
    → Resolves s domain (id ∷ ids) r.inputs
    → (t : ObjectStore) × (mark_spent id s ≡ ok t)
first_input_live s domain id ids r v = go r.inputs v
  where
    go : (os : _) → Resolves s domain (id ∷ ids) os → (t : ObjectStore) × (mark_spent id s ≡ ok t)
    go [] w = absurd w
    go (o ∷ os) w = mark_spent_total id s o w.0.found w.0.live

-- Where a transaction names its first input twice and passes validation, and its nonce is registered,
-- its execution fails as a double spend, and the input is spent all the same. The spent flag is all that
-- changes in the outputs of the store: no output is created for the input.
pub repeated_input_burns :
    (e : Encoders) (b : Backends) (now : ℕ) (tx : ComputeTx) (x : Executor) (r : ValidationReport)
    (registry : Registry) (id : Hash) (ids : List Hash)
    → tx.input_set ≡ id ∷ id ∷ ids
    → validate b x.store tx ≡ ok r
    → register_replay_nonce e now tx x.replay_nonce_registry ≡ (ok tt, registry)
    → ((execute e b now tx x).0 ≡ err (invalid_operation Reason.double_spend))
      × IsSpent id (execute e b now tx x).1.store
      × ((o : ObjectOutput) × (get_output id x.store ≡ some o)
          × ((j : Hash)
              → get_output j (execute e b now tx x).1.store
                ≡ (if id == j then some (set_spent true o) else get_output j x.store)))
unfolding execute commit_prevalidated commit_store spend_all
repeated_input_burns e b now tx x r registry id ids twice valid registered =
    let resolved = (validate-Accepted b x.store tx r valid).inputs in
    let (t, marked) =
      first_input_live x.store tx.domain_id id (id ∷ ids) r (rw twice at resolved) in
    let again = mark_spent_twice id x.store t marked in
    let (o, found, live) = mark_spent_live id x.store t marked in
    let store : (execute e b now tx x).1.store ≡ t = ground arith in
    (
      ground arith,
      rw store (record {
        output = set_spent true o;
        found = ground (arith, get_output-mark_spent id id x.store t o found marked);
        spent = refl;
      }),
      (o, found, λ j. rw store (get_output-mark_spent j id x.store t o found marked)),
    )
