-- ===== src/Compute/Store/Laws.antt =====
-- Each operation of the store by the outputs that are found before and after it.
use rabbit_chain_node.Prelude.{◌≡◌, refl, true, false, none, some, ◌==◌, if◌then◌else◌, arith}
use rabbit_chain_node.Prelude.Assoc.{insert, lookup-insert}
use rabbit_chain_node.Compute.Types.{
  Hash, ObjectOutput, duplicate_output_id, invalid_operation, Reason, ok, err,
}
use rabbit_chain_node.Compute.Store.{
  ObjectStore, get_output, insert_output, should_update, mark_spent, set_spent,
}

-- Insertion of an output whose identifier is new: exactly that identifier is bound anew.
pub get_output-insert_output :
    (j : Hash) (o : ObjectOutput) (s s' : ObjectStore)
    → insert_output o s ≡ ok s'
    → get_output j s' ≡ (if o.output_id == j then some o else get_output j s)
unfolding get_output insert_output
get_output-insert_output j o s s' h = ground (arith, lookup-insert j o.output_id o s.outputs)

pub insert_output_fresh :
    (o : ObjectOutput) (s s' : ObjectStore)
    → insert_output o s ≡ ok s'
    → get_output o.output_id s ≡ none
unfolding get_output insert_output
insert_output_fresh o s s' h = ground arith

pub insert_output_duplicate :
    (o p : ObjectOutput) (s : ObjectStore)
    → get_output o.output_id s ≡ some p
    → insert_output o s ≡ err duplicate_output_id
unfolding get_output insert_output
insert_output_duplicate o p s h = ground arith

pub insert_output_total :
    (o : ObjectOutput) (s : ObjectStore)
    → get_output o.output_id s ≡ none
    → (s' : ObjectStore) × (insert_output o s ≡ ok s')
unfolding get_output insert_output
insert_output_total o s h = (
  record {
    outputs = insert o.output_id o s.outputs;
    latest_by_object =
        if should_update o s
        then insert o.object_id o.output_id s.latest_by_object
        else s.latest_by_object;
  },
  ground arith,
)

pub get_output-mark_spent :
    (j id : Hash) (s s' : ObjectStore) (o : ObjectOutput)
    → get_output id s ≡ some o
    → mark_spent id s ≡ ok s'
    → get_output j s' ≡ (if id == j then some (set_spent true o) else get_output j s)
unfolding get_output mark_spent
get_output-mark_spent j id s s' o e h =
    ground (arith, lookup-insert j id (set_spent true o) s.outputs)

-- A successful mark found a live output.
pub mark_spent_live :
    (id : Hash) (s s' : ObjectStore)
    → mark_spent id s ≡ ok s'
    → (o : ObjectOutput) × (get_output id s ≡ some o) × (o.spent ≡ false)
unfolding get_output mark_spent
mark_spent_live id s s' h = ground arith

pub mark_spent_total :
    (id : Hash) (s : ObjectStore) (o : ObjectOutput)
    → get_output id s ≡ some o
    → o.spent ≡ false
    → (s' : ObjectStore) × (mark_spent id s ≡ ok s')
unfolding get_output mark_spent
mark_spent_total id s o h k =
    (record s { outputs = insert id (set_spent true o) s.outputs }, ground arith)

pub mark_spent_refused :
    (id : Hash) (s : ObjectStore) (o : ObjectOutput)
    → get_output id s ≡ some o
    → o.spent ≡ true
    → mark_spent id s ≡ err (invalid_operation Reason.double_spend)
unfolding get_output mark_spent
mark_spent_refused id s o h k = ground arith

-- An output is spent at most once: a second mark of what was marked is refused.
pub mark_spent_twice :
    (id : Hash) (s s' : ObjectStore)
    → mark_spent id s ≡ ok s'
    → mark_spent id s' ≡ err (invalid_operation Reason.double_spend)
mark_spent_twice id s s' h =
    let (o, e, live) = mark_spent_live id s s' h in
    mark_spent_refused id s' (set_spent true o)
      (ground (arith, get_output-mark_spent id id s s' o e h)) refl
