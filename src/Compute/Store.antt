-- ===== src/Compute/Store.antt =====
-- `InMemoryObjectStore` (compute/execution.rs). The two maps under their locks are the two fields;
-- each method takes both locks for its whole run, so it is one step from a store to the next.
pub mod Laws
pub mod Rollback
pub mod Invariant
use rabbit_chain_node.Prelude.{
  ℕ, ◌≡◌, Bool, true, false, List, [], ◌∷◌, Option, none, some, ◌==◌, leb, if◌then◌else◌,
}
use rabbit_chain_node.Prelude.Assoc.{Map, lookup, insert, erase}
use rabbit_chain_node.Compute.Types.{
  Hash, ObjectOutput, ComputeError, object_not_found, duplicate_output_id, invalid_operation,
  Reason, ComputeResult, ok, err,
}

pub record ObjectStore : Type 0 where
  pub outputs : Map ObjectOutput
  pub latest_by_object : Map Hash

unfoldable pub new : ObjectStore
new = record { outputs = []; latest_by_object = [] }

unfoldable pub get_output : Hash → ObjectStore → Option ObjectOutput
get_output id s = lookup id s.outputs

unfoldable pub get_latest_output_by_object : Hash → ObjectStore → Option ObjectOutput
get_latest_output_by_object object s = elim (lookup object s.latest_by_object) [
  | none ↦ none
  | some latest ↦ lookup latest s.outputs
]

-- The `should_update` of `insert_output`: a missing pointer, or one to a missing output, is replaced.
unfoldable pub should_update : ObjectOutput → ObjectStore → Bool
should_update output s = elim (lookup output.object_id s.latest_by_object) [
  | none ↦ true
  | some prev_id ↦ elim (lookup prev_id s.outputs) [
    | none ↦ true
    | some prev ↦ leb prev.version output.version
  ]
]

unfoldable pub insert_output : ObjectOutput → ObjectStore → ComputeResult ObjectStore
unfolding should_update
insert_output output s = elim (lookup output.output_id s.outputs) [
  | some _ ↦ err duplicate_output_id
  | none ↦ ok (record {
    outputs = insert output.output_id output s.outputs;
    latest_by_object =
        if should_update output s
        then insert output.object_id output.output_id s.latest_by_object
        else s.latest_by_object;
  })
]

abbrev pub set_spent : Bool → ObjectOutput → ObjectOutput
set_spent b o = record o { spent = b }

unfoldable pub mark_spent : Hash → ObjectStore → ComputeResult ObjectStore
mark_spent id s = elim (lookup id s.outputs) [
  | none ↦ err (object_not_found id)
  | some existing ↦
      if existing.spent
      then err (invalid_operation Reason.double_spend)
      else ok (record s { outputs = insert id (set_spent true existing) s.outputs })
]

unfoldable pub unmark_spent : Hash → ObjectStore → ComputeResult ObjectStore
unmark_spent id s = elim (lookup id s.outputs) [
  | none ↦ err (object_not_found id)
  | some existing ↦ ok (record s { outputs = insert id (set_spent false existing) s.outputs })
]

-- The pointer of the removed output's object is cleared if it names that output.
abbrev pub latest_without : Hash → ObjectOutput → Map Hash → Map Hash
latest_without id output latest = elim (lookup output.object_id latest) [
  | none ↦ latest
  | some prev ↦ if prev == id then erase output.object_id latest else latest
]

unfoldable pub remove_output : Hash → ObjectStore → ComputeResult ObjectStore
remove_output id s = elim (lookup id s.outputs) [
  | none ↦ err (object_not_found id)
  | some output ↦ ok (record {
    outputs = erase id s.outputs;
    latest_by_object = latest_without id output s.latest_by_object;
  })
]

abbrev values : Map ObjectOutput → List ObjectOutput
values [] = []
values ((_, o) ∷ m) = o ∷ values m

-- A hash map has no order of its own; here it is that of the association list.
unfoldable pub collect_outputs : ObjectStore → Option (List ObjectOutput)
collect_outputs s = some (values s.outputs)
