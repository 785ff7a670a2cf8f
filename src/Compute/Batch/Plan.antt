-- ===== src/Compute/Batch/Plan.antt =====
-- What the planner promises: groups free of conflicts, and every transaction planned once.
use rabbit_chain_node.Prelude.{
  ℕ, ◌+◌, ◌≡◌, refl, inl, inr, true, false, not, List, [], ◌∷◌, ◌++◌, ◌==◌, all, All, All-append,
  count, count-append, arith, Bool-cases, &&-true,
}
use rabbit_chain_node.Compute.Types.{Hash, ok}
use rabbit_chain_node.Compute.Results.{ComputeResult-cases}
use rabbit_chain_node.Compute.Store.{ObjectStore}
use rabbit_chain_node.Compute.Batch.{
  PendingComputeTx, PlannedComputeTx, ComputeBatchGroup, ComputeBatchPlan, ConflictPolicy, fits,
  place, plan_item, plan_from, plan,
}

abbrev pub pending_ids : List PendingComputeTx → List Hash
pending_ids [] = []
pending_ids (x ∷ xs) = x.tx_id ∷ pending_ids xs

abbrev pub planned_ids : List PlannedComputeTx → List Hash
planned_ids [] = []
planned_ids (x ∷ xs) = x.pending.tx_id ∷ planned_ids xs

abbrev pub group_ids : List ComputeBatchGroup → List Hash
group_ids [] = []
group_ids (g ∷ gs) = planned_ids g.txs ++ group_ids gs

module _ (policy : ConflictPolicy) where
  -- No transaction of the list conflicts with a later one.
  abbrev pub Independent : List PlannedComputeTx → Type 0
  Independent [] = Unit
  Independent (x ∷ xs) = All (λ y. policy.conflicts x.access y.access ≡ false) xs × Independent xs

  abbrev pub IsGroup : ComputeBatchGroup → Type 0
  IsGroup g = Independent g.txs × All (λ x. x.pending.domain_id ≡ g.domain_id) g.txs

  Independent-append :
      (xs : List PlannedComputeTx) (y : PlannedComputeTx)
      → Independent xs
      → all (λ x. not (policy.conflicts x.access y.access)) xs ≡ true
      → Independent (xs ++ (y ∷ []))
  Independent-append [] y h free = (tt, tt)
  Independent-append (x ∷ xs) y h free =
      let (one, rest) = &&-true _ _ free in
      (All-append _ xs (y ∷ []) h.0 (ground arith, tt), Independent-append xs y h.1 rest)

  place-IsGroup :
      (y : PlannedComputeTx) (gs : List ComputeBatchGroup)
      → All IsGroup gs
      → All IsGroup (place policy y gs)
  unfolding place
  place-IsGroup y [] h = (((tt, tt), (refl, tt)), tt)
  place-IsGroup y (g ∷ gs) h = elim (Bool-cases (fits policy y g)) [
    | inr misfit ↦ rw misfit (h.0, place-IsGroup y gs h.1)
    | inl fit ↦
        let domain : (g.domain_id == y.pending.domain_id) ≡ true = ground arith in
        let free : all (λ x. not (policy.conflicts x.access y.access)) g.txs ≡ true =
          ground arith in
        let same : y.pending.domain_id ≡ g.domain_id = ground arith in
        rw fit (
          (Independent-append g.txs y h.0.0 free, All-append _ g.txs (y ∷ []) h.0.1 (same, tt)),
          h.1,
        )
  ]

  plan_item-IsGroup :
      (s : ObjectStore) (item : PendingComputeTx) (p : ComputeBatchPlan)
      → All IsGroup p.groups
      → All IsGroup (plan_item policy s item p).groups
  unfolding plan_item
  plan_item-IsGroup s item p h = elim (Bool-cases (policy.can_batch item.tx)) [
    | inr alone ↦ rw alone h
    | inl shared ↦ elim (ComputeResult-cases (policy.access_set item.tx s)) [
      | inl (access, e) ↦
          rw (shared, e) (place-IsGroup (record { pending = item; access = access }) p.groups h)
      | inr (f, e) ↦ rw (shared, e) h
    ]
  ]

  plan_from-IsGroup :
      (s : ObjectStore) (items : List PendingComputeTx) (p : ComputeBatchPlan)
      → All IsGroup p.groups
      → All IsGroup (plan_from policy s items p).groups
  unfolding plan_from
  plan_from-IsGroup s [] p h = h
  plan_from-IsGroup s (item ∷ items) p h =
      plan_from-IsGroup s items (plan_item policy s item p) (plan_item-IsGroup s item p h)

  -- In every group of a plan the transactions have the group's domain, and none conflicts with a later
  -- one by the policy.
  pub plan-IsGroup :
      (items : List PendingComputeTx) (s : ObjectStore) (p : ComputeBatchPlan)
      → plan policy items s ≡ ok p
      → All IsGroup p.groups
  unfolding plan
  plan-IsGroup items s p h =
      let e : plan_from policy s items (record { groups = []; fallback = [] }) ≡ p = ground arith in
      rw e at (plan_from-IsGroup s items (record { groups = []; fallback = [] }) tt)

  module _ (a : Hash) where
    abbrev planned : ComputeBatchPlan → ℕ
    planned p = count a (group_ids p.groups) + count a (pending_ids p.fallback)

    joined-count :
        (xs : List PlannedComputeTx) (y : PlannedComputeTx) (rest : List Hash)
        → count a (planned_ids (xs ++ (y ∷ [])) ++ rest)
          ≡ count a (planned_ids xs ++ rest) + count a (y.pending.tx_id ∷ [])
    joined-count [] y rest = omega arith
    joined-count (x ∷ xs) y rest = omega (arith, joined-count xs y rest)

    fallback-count :
        (xs : List PendingComputeTx) (y : PendingComputeTx)
        → count a (pending_ids (xs ++ (y ∷ []))) ≡ count a (pending_ids xs) + count a (y.tx_id ∷ [])
    fallback-count [] y = omega arith
    fallback-count (x ∷ xs) y = omega (arith, fallback-count xs y)

    place-count :
        (y : PlannedComputeTx) (gs : List ComputeBatchGroup)
        → count a (group_ids (place policy y gs))
          ≡ count a (group_ids gs) + count a (y.pending.tx_id ∷ [])
    unfolding place
    place-count y [] = omega arith
    place-count y (g ∷ gs) = elim (Bool-cases (fits policy y g)) [
      | inl fit ↦ rw fit (joined-count g.txs y (group_ids gs))
      | inr misfit ↦ rw misfit (
          omega (
            arith,
            place-count y gs,
            count-append a (planned_ids g.txs) (group_ids gs),
            count-append a (planned_ids g.txs) (group_ids (place policy y gs)),
          ))
    ]

    plan_item-count :
        (s : ObjectStore) (item : PendingComputeTx) (p : ComputeBatchPlan)
        → planned (plan_item policy s item p) ≡ planned p + count a (item.tx_id ∷ [])
    unfolding plan_item
    plan_item-count s item p = elim (Bool-cases (policy.can_batch item.tx)) [
      | inr alone ↦ rw alone (omega (arith, fallback-count p.fallback item))
      | inl shared ↦ elim (ComputeResult-cases (policy.access_set item.tx s)) [
        | inl (access, e) ↦
            rw (shared, e)
              (omega (arith, place-count (record { pending = item; access = access }) p.groups))
        | inr (f, e) ↦ rw (shared, e) (omega (arith, fallback-count p.fallback item))
      ]
    ]

    plan_from-count :
        (s : ObjectStore) (items : List PendingComputeTx) (p : ComputeBatchPlan)
        → planned (plan_from policy s items p) ≡ planned p + count a (pending_ids items)
    unfolding plan_from
    plan_from-count s [] p = omega arith
    plan_from-count s (item ∷ items) p =
        omega (arith, plan_from-count s items (plan_item policy s item p), plan_item-count s item p)

  -- Every pending transaction is planned as often as it is pending, in a group or as a fallback: none is
  -- lost and none runs twice.
  pub plan-count :
      (items : List PendingComputeTx) (s : ObjectStore) (p : ComputeBatchPlan)
      → plan policy items s ≡ ok p
      → (a : Hash)
      → count a (group_ids p.groups) + count a (pending_ids p.fallback)
        ≡ count a (pending_ids items)
  unfolding plan
  plan-count items s p h a =
      let e : plan_from policy s items (record { groups = []; fallback = [] }) ≡ p = ground arith in
      let all_planned =
        rw e at (plan_from-count a s items (record { groups = []; fallback = [] })) in
      omega arith
