-- ===== src/Compute/Store/Rollback.antt =====
-- What a reorganisation relies on: `unmark_spent` takes back `mark_spent`, and `remove_output` takes
-- back `insert_output`, as far as the outputs go. The pointer to the latest version does not return.
use rabbit_chain_node.Prelude.{◌≡◌, ◌≤◌, inl, inr, true, none, some, Option-cases, arith}
use rabbit_chain_node.Prelude.Assoc.{lookup, insert, erase, lookup-insert, lookup-erase}
use rabbit_chain_node.Compute.Types.{Hash, ObjectOutput, ok}
use rabbit_chain_node.Compute.Store.{
  ObjectStore, get_output, get_latest_output_by_object, insert_output, mark_spent, unmark_spent,
  remove_output, set_spent, latest_without,
}
use rabbit_chain_node.Compute.Store.Laws.{mark_spent_live}

-- Two stores with the same outputs under every identifier.
abbrev pub SameOutputs : ObjectStore → ObjectStore → Type 0
SameOutputs s t = (j : Hash) → get_output j s ≡ get_output j t

-- After a successful `mark_spent`, `unmark_spent` succeeds, and every output is what it was before
-- the mark. The pointers to latest versions are those from before as well.
pub unmark_spent-mark_spent :
    (id : Hash) (s s' : ObjectStore)
    → mark_spent id s ≡ ok s'
    → (t : ObjectStore) × (unmark_spent id s' ≡ ok t)
      × SameOutputs t s
      × (t.latest_by_object ≡ s.latest_by_object)
unfolding get_output mark_spent unmark_spent
unmark_spent-mark_spent id s s' h =
    let (o, e, live) = mark_spent_live id s s' h in
    (
      record s' { outputs = insert id o s'.outputs },
      ground (arith, lookup-insert id id (set_spent true o) s.outputs),
      λ j.
          ground (
            arith,
            lookup-insert j id (set_spent true o) s.outputs,
            lookup-insert j id o s'.outputs,
          ),
      ground arith,
    )

-- After a successful `insert_output`, `remove_output` succeeds, and every output is what it was
-- before the insertion.
pub remove_output-insert_output :
    (o : ObjectOutput) (s s' : ObjectStore)
    → insert_output o s ≡ ok s'
    → (t : ObjectStore) × (remove_output o.output_id s' ≡ ok t) × SameOutputs t s
unfolding get_output insert_output remove_output
remove_output-insert_output o s s' h = (
  record {
    outputs = erase o.output_id s'.outputs;
    latest_by_object = latest_without o.output_id o s'.latest_by_object;
  },
  ground (arith, lookup-insert o.output_id o.output_id o s.outputs),
  λ j.
      ground
        (arith, lookup-erase j o.output_id s'.outputs, lookup-insert j o.output_id o s.outputs),
)

-- The round trip loses the latest version: where an object had a latest output `p` and the
-- inserted output `o` is a version of it no older than `p`, then after the removal of `o` the object
-- has no latest output, although `p` is still stored.
pub rollback_loses_latest :
    (o p : ObjectOutput) (s s' t : ObjectStore)
    → get_latest_output_by_object o.object_id s ≡ some p
    → p.version ≤ o.version
    → insert_output o s ≡ ok s'
    → remove_output o.output_id s' ≡ ok t
    → (get_latest_output_by_object o.object_id t ≡ none)
      × ((id : Hash) × (get_output id s ≡ some p) × (get_output id t ≡ some p))
unfolding get_latest_output_by_object get_output insert_output remove_output
rollback_loses_latest o p s s' t latest older inserted removed = (
  ground (
    arith,
    lookup-insert o.output_id o.output_id o s.outputs,
    lookup-insert o.object_id o.object_id o.output_id s.latest_by_object,
    lookup-erase o.object_id o.object_id s'.latest_by_object,
  ),
  elim (Option-cases (lookup o.object_id s.latest_by_object)) [
    | inl missing ↦ absurd (ground arith)
    | inr (id, known) ↦ (
      id,
      ground arith,
      ground (
        arith,
        lookup-insert o.output_id o.output_id o s.outputs,
        lookup-insert id o.output_id o s.outputs,
        lookup-erase id o.output_id s'.outputs,
      ),
    )
  ],
)
