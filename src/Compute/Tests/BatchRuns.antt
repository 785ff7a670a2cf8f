-- ===== src/Compute/Tests/BatchRuns.antt =====
-- Runs of the batch planner.
use rabbit_chain_node.Prelude.{◌≡◌, ◌⊎◌, refl, false, List, [], ◌∷◌, All, contains}
use rabbit_chain_node.Compute.Types.{Hash, ComputeTx, ok}
use rabbit_chain_node.Compute.Store.{ObjectStore}
use rabbit_chain_node.Compute.Batch.{
  PendingComputeTx, ComputeAccessSet, ComputeBatchPlan, access_inputs, access_reads,
  access_proposals, access_set, conflicts, default_policy, place, plan_item, plan_from, plan,
}
use rabbit_chain_node.Compute.Batch.Plan.{IsGroup, plan-IsGroup}
use rabbit_chain_node.Compute.Batch.Conflicts.{written_ids, read_ids, conflicts-disjoint}
use rabbit_chain_node.Compute.Tests.Samples.{coin, transfer, change, payment, opened}

-- Two coins of two objects, and a payment from each; the last item spends what is not there.
abbrev shelf : ObjectStore
shelf = record {
  outputs = (1, coin 1 1 100) ∷ (2, record (coin 2 1 30) { object_id = 8 }) ∷ [];
  latest_by_object = [];
}

abbrev other : ComputeTx
other = record (transfer (2 ∷ []) (record (change 4 2 20) { object_id = 8 } ∷ [])) { tx_id = 98 }

abbrev pending : ComputeTx → PendingComputeTx
pending tx = record {
  tx = tx;
  tx_id = tx.tx_id;
  domain_id = tx.domain_id;
  lane_key = [];
  enqueued_at = 0;
}

abbrev queue : List PendingComputeTx
queue = pending payment ∷ pending other ∷ pending payment ∷ pending (transfer (9 ∷ []) []) ∷ []

abbrev access : ComputeTx → List Hash → List Hash → ComputeAccessSet
access tx outputs objects = record {
  domain_id = 0;
  read_output_ids = [];
  read_object_ids = [];
  write_output_ids = outputs;
  write_object_ids = objects;
}

abbrev first_access : ComputeAccessSet
first_access = access payment (1 ∷ 3 ∷ 1 ∷ []) (7 ∷ 7 ∷ 7 ∷ [])

abbrev other_access : ComputeAccessSet
other_access = access other (2 ∷ 4 ∷ 2 ∷ []) (8 ∷ 8 ∷ 8 ∷ [])

abbrev planned : ComputeBatchPlan
planned = record {
  groups =
      record {
        domain_id = 0;
        txs =
            record { pending = pending payment; access = first_access }
            ∷ record { pending = pending other; access = other_access }
            ∷ [];
      }
      ∷ record {
        domain_id = 0;
        txs = record { pending = pending payment; access = first_access } ∷ [];
      }
      ∷ [];
  fallback = pending (transfer (9 ∷ []) []) ∷ [];
}

plans : plan default_policy queue shelf ≡ ok planned
unfolding opened plan plan_from plan_item place access_set access_inputs access_reads
    access_proposals conflicts
plans = refl

plan-IsGroup_example : All (IsGroup default_policy) planned.groups
plan-IsGroup_example = plan-IsGroup default_policy queue shelf planned plans

payment_access : access_set payment shelf ≡ ok first_access
unfolding opened access_set access_inputs access_reads access_proposals
payment_access = refl

reads_other : access_set other shelf ≡ ok other_access
unfolding opened access_set access_inputs access_reads access_proposals
reads_other = refl

apart : conflicts first_access other_access ≡ false
unfolding conflicts
apart = refl

conflicts-disjoint_example :
    ((contains (written_ids payment) 1 ≡ false)
      ⊎ ((contains (written_ids other) 1 ≡ false) × (contains (read_ids other.read_set) 1 ≡ false)))
    × ((contains (read_ids payment.read_set) 1 ≡ false) ⊎ (contains (written_ids other) 1 ≡ false))
conflicts-disjoint_example =
    conflicts-disjoint shelf payment other first_access other_access 1 payment_access reads_other
      apart
