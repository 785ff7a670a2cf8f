-- ===== src/Compute/Batch.antt =====
-- The batch planner (compute/batch.rs) and the queue entries it reads (compute/scheduler.rs). A `BTreeSet`
-- is the list of its members, whose order and repetitions are of no account: only membership is asked.
-- An `Instant` is a number of milliseconds.
pub mod Plan
pub mod Conflicts
use rabbit_chain_node.Prelude.{
  ℕ, Bool, true, false, not, ◌||◌, List, [], ◌∷◌, ◌++◌, Option, none, some, ◌==◌, if◌then◌else◌,
  any, all, contains,
}
use rabbit_chain_node.Compute.Types.{
  Hash, Text, ObjectOutput, OutputProposal, ObjectReadRef, ComputeTx, ComputeResult, ok, err,
  object_not_found, ◌>>=◌, ok_or,
}
use rabbit_chain_node.Compute.Store.{ObjectStore, get_output}

pub record PendingComputeTx : Type 0 where
  pub tx : ComputeTx
  pub tx_id : Hash
  pub domain_id : ℕ
  pub lane_key : Text
  pub enqueued_at : ℕ

pub record ComputeAccessSet : Type 0 where
  pub domain_id : ℕ
  pub read_output_ids : List Hash
  pub read_object_ids : List Hash
  pub write_output_ids : List Hash
  pub write_object_ids : List Hash

pub record PlannedComputeTx : Type 0 where
  pub pending : PendingComputeTx
  pub access : ComputeAccessSet

pub record ComputeBatchGroup : Type 0 where
  pub domain_id : ℕ
  pub txs : List PlannedComputeTx

pub record ComputeBatchPlan : Type 0 where
  pub groups : List ComputeBatchGroup
  pub fallback : List PendingComputeTx

-- The trait `ComputeConflictPolicy`.
pub record ConflictPolicy : Type 0 where
  pub access_set : ComputeTx → ObjectStore → ComputeResult ComputeAccessSet
  pub conflicts : ComputeAccessSet → ComputeAccessSet → Bool
  pub can_batch : ComputeTx → Bool

abbrev add_write : Hash → Hash → ComputeAccessSet → ComputeAccessSet
add_write output object a = record a {
  write_output_ids = output ∷ a.write_output_ids;
  write_object_ids = object ∷ a.write_object_ids;
}

abbrev add_read : Hash → Hash → ComputeAccessSet → ComputeAccessSet
add_read output object a = record a {
  read_output_ids = output ∷ a.read_output_ids;
  read_object_ids = object ∷ a.read_object_ids;
}

-- `let Some(output) = store.get_output(id) else { return Err(ObjectNotFound(id)) }`
abbrev find_output : ObjectStore → Hash → ComputeResult ObjectOutput
find_output s id = ok_or (get_output id s) (object_not_found id)

-- The three loops of `access_set`.
unfoldable pub access_inputs :
    ObjectStore → List Hash → ComputeAccessSet → ComputeResult ComputeAccessSet
access_inputs s [] a = ok a
access_inputs s (id ∷ ids) a =
    find_output s id >>= λ o. access_inputs s ids (add_write id o.object_id a)

unfoldable pub access_reads :
    ObjectStore → List ObjectReadRef → ComputeAccessSet → ComputeResult ComputeAccessSet
access_reads s [] a = ok a
access_reads s (r ∷ rs) a =
    find_output s r.output_id >>= λ o. access_reads s rs (add_read r.output_id o.object_id a)

abbrev add_predecessor :
    ObjectStore → Option Hash → ComputeAccessSet → ComputeResult ComputeAccessSet
add_predecessor s none a = ok a
add_predecessor s (some pred) a = find_output s pred >>= λ o. ok (add_write pred o.object_id a)

unfoldable pub access_proposals :
    ObjectStore → List OutputProposal → ComputeAccessSet → ComputeResult ComputeAccessSet
access_proposals s [] a = ok a
access_proposals s (p ∷ ps) a =
    add_predecessor s p.predecessor (add_write p.output_id p.object_id a) >>= access_proposals s ps

unfoldable pub access_set : ComputeTx → ObjectStore → ComputeResult ComputeAccessSet
access_set tx s =
    access_inputs s tx.input_set (record {
      domain_id = tx.domain_id;
      read_output_ids = [];
      read_object_ids = [];
      write_output_ids = [];
      write_object_ids = [];
    })
    >>= access_reads s tx.read_set
    >>= access_proposals s tx.output_proposals

abbrev pub intersects : List Hash → List Hash → Bool
intersects left right = any (contains right) left

unfoldable pub conflicts : ComputeAccessSet → ComputeAccessSet → Bool
conflicts left right =
    intersects left.write_output_ids right.write_output_ids
    || intersects left.write_output_ids right.read_output_ids
    || intersects left.read_output_ids right.write_output_ids
    || intersects left.write_object_ids right.write_object_ids
    || intersects left.write_object_ids right.read_object_ids
    || intersects left.read_object_ids right.write_object_ids

-- `DefaultComputeConflictPolicy`
abbrev pub default_policy : ConflictPolicy
default_policy = record { access_set = access_set; conflicts = conflicts; can_batch = λ tx. true }

module _ (policy : ConflictPolicy) where
  abbrev pub fits : PlannedComputeTx → ComputeBatchGroup → Bool
  fits planned group =
      if group.domain_id == planned.pending.domain_id
      then all (λ existing. not (policy.conflicts existing.access planned.access)) group.txs
      else false

  -- The planned transaction joins the first group that it fits, or opens one at the end.
  unfoldable pub place : PlannedComputeTx → List ComputeBatchGroup → List ComputeBatchGroup
  place planned [] = record { domain_id = planned.pending.domain_id; txs = planned ∷ [] } ∷ []
  place planned (group ∷ groups) =
      let rest = place planned groups in
      if fits planned group
      then record group { txs = group.txs ++ (planned ∷ []) } ∷ groups
      else group ∷ rest

  unfoldable pub plan_item : ObjectStore → PendingComputeTx → ComputeBatchPlan → ComputeBatchPlan
  plan_item s item plan =
      if policy.can_batch item.tx
      then (elim (policy.access_set item.tx s) [
        | ok access ↦ record plan {
          groups = place (record { pending = item; access = access }) plan.groups;
        }
        | err _ ↦ record plan { fallback = plan.fallback ++ (item ∷ []) }
      ])
      else record plan { fallback = plan.fallback ++ (item ∷ []) }

  unfoldable pub plan_from :
      ObjectStore → List PendingComputeTx → ComputeBatchPlan → ComputeBatchPlan
  plan_from s [] plan = plan
  plan_from s (item ∷ items) plan = plan_from s items (plan_item s item plan)

  -- `plan` of `DefaultComputeBatchPlanner`, which never fails.
  unfoldable pub plan : List PendingComputeTx → ObjectStore → ComputeResult ComputeBatchPlan
  plan items s = ok (plan_from s items (record { groups = []; fallback = [] }))
