-- ===== src/Compute/Executor/Effects.antt =====
-- A successful execution, as a whole.
use rabbit_chain_node.Prelude.{
  ℕ, ◌≡◌, ◌∙◌, inl, inr, true, false, List, [], ◌∷◌, some, contains, arith, All,
}
use rabbit_chain_node.Compute.Types.{Hash, OutputProposal, ComputeTx, ok}
use rabbit_chain_node.Compute.Results.{ComputeResult-cases}
use rabbit_chain_node.Compute.Store.{ObjectStore, get_output, insert_output, set_spent}
use rabbit_chain_node.Compute.Store.Laws.{get_output-insert_output}
use rabbit_chain_node.Compute.Validate.{Backends, ValidationReport, validate}
use rabbit_chain_node.Compute.Executor.{
  Encoders, Executor, object_from_proposal, spend_all, insert_all, commit_store,
  commit_prevalidated, register_replay_nonce, execute,
}
use rabbit_chain_node.Compute.Executor.Commit.{
  Consumed, spend_all_misses, spend_all_hits, insert_all_keeps,
}

abbrev pub proposal_ids : List OutputProposal → List Hash
proposal_ids [] = []
proposal_ids (p ∷ ps) = p.output_id ∷ proposal_ids ps

pub insert_all_step :
    (p : OutputProposal) (ps : List OutputProposal) (s s' : ObjectStore)
    → insert_all (p ∷ ps) s ≡ (ok tt, s')
    → (t : ObjectStore) × (insert_output (object_from_proposal p) s ≡ ok t)
      × (insert_all ps t ≡ (ok tt, s'))
unfolding insert_all
insert_all_step p ps s s' h =
    elim (ComputeResult-cases (insert_output (object_from_proposal p) s)) [
      | inl (t, e) ↦ (t, e, ground arith)
      | inr (f, e) ↦ absurd (ground arith)
    ]

insert_all_misses :
    (j : Hash) (ps : List OutputProposal) (s s' : ObjectStore)
    → insert_all ps s ≡ (ok tt, s')
    → contains (proposal_ids ps) j ≡ false
    → get_output j s' ≡ get_output j s
insert_all_misses j [] s s' h out = unfold insert_all in ground arith
insert_all_misses j (p ∷ ps) s s' h out =
    let (t, e, rest) = insert_all_step p ps s s' h in
    insert_all_misses j ps t s' rest (ground arith)
    ∙ (unfold object_from_proposal in
        ground (arith, get_output-insert_output j (object_from_proposal p) s t e))

-- A proposal is stored as it was made, live.
abbrev pub Stored : ObjectStore → OutputProposal → Type 0
Stored s p = get_output p.output_id s ≡ some (object_from_proposal p)

insert_all_stores :
    (ps : List OutputProposal) (s s' : ObjectStore)
    → insert_all ps s ≡ (ok tt, s')
    → All (Stored s') ps
insert_all_stores [] s s' h = tt
insert_all_stores (p ∷ ps) s s' h =
    let (t, e, rest) = insert_all_step p ps s s' h in
    let now : get_output p.output_id t ≡ some (object_from_proposal p) =
      unfold object_from_proposal in
      ground (arith, get_output-insert_output p.output_id (object_from_proposal p) s t e) in
    let kept = insert_all_keeps p.output_id (object_from_proposal p) ps t now in
    (rw rest at kept, insert_all_stores ps t s' rest)

-- The effect of a transaction on the store, as a specification: every input was live and is spent,
-- every proposal is stored, and nothing else has changed.
pub record Effect (tx : ComputeTx) (s s' : ObjectStore) : Type 0 where
  pub consumed : (id : Hash) → contains tx.input_set id ≡ true → Consumed s s' id
  pub created : All (Stored s') tx.output_proposals
  pub untouched :
      (id : Hash)
      → contains tx.input_set id ≡ false
      → contains (proposal_ids tx.output_proposals) id ≡ false
      → get_output id s' ≡ get_output id s

pub commit_steps :
    (tx : ComputeTx) (report r : ValidationReport) (s s' : ObjectStore)
    → commit_store tx report s ≡ (ok r, s')
    → (t : ObjectStore) × (spend_all tx.input_set s ≡ (ok tt, t))
      × (insert_all tx.output_proposals t ≡ (ok tt, s'))
unfolding commit_store
commit_steps tx report r s s' h = ((spend_all tx.input_set s).1, ground arith, ground arith)

pub commit_store-Effect :
    (tx : ComputeTx) (report r : ValidationReport) (s s' : ObjectStore)
    → commit_store tx report s ≡ (ok r, s')
    → Effect tx s s'
commit_store-Effect tx report r s s' h =
    let (t, spent, inserted) = commit_steps tx report r s s' h in
    record {
      consumed = λ id hit.
          let c = spend_all_hits id tx.input_set s t spent hit in
          record {
            output = c.output;
            before = c.before;
            live = c.live;
            after =
                rw inserted at
                  (insert_all_keeps id (set_spent true c.output) tx.output_proposals t c.after);
          };
      created = insert_all_stores tx.output_proposals t s' inserted;
      untouched = λ id miss new.
          insert_all_misses id tx.output_proposals t s' inserted new
          ∙ spend_all_misses id tx.input_set s t spent miss;
    }

-- The parts of a successful execution.
pub execute_steps :
    (e : Encoders) (b : Backends) (now : ℕ) (tx : ComputeTx) (x x' : Executor)
    (r : ValidationReport)
    → execute e b now tx x ≡ (ok r, x')
    → (validate b x.store tx ≡ ok r)
      × (commit_store tx r x.store ≡ (ok r, x'.store))
      × (register_replay_nonce e now tx x.replay_nonce_registry ≡ (ok tt, x'.replay_nonce_registry))
unfolding execute commit_prevalidated commit_store
execute_steps e b now tx x x' r h = ground arith

-- A successful execution spends every input, which was live, stores every proposal live, and changes no
-- other output.
pub execute-Effect :
    (e : Encoders) (b : Backends) (now : ℕ) (tx : ComputeTx) (x x' : Executor)
    (r : ValidationReport)
    → execute e b now tx x ≡ (ok r, x')
    → Effect tx x.store x'.store
execute-Effect e b now tx x x' r h =
    commit_store-Effect tx r r x.store x'.store (execute_steps e b now tx x x' r h).1
