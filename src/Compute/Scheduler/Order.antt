-- ===== src/Compute/Scheduler/Order.antt =====
-- The order in which the lanes keep their transactions.
use rabbit_chain_node.Prelude.{
  ℕ, subst, arith, ◌⊎◌, ◌-◌, ◌≡◌, refl, sym, ap, inl, inr, List, [], ◌∷◌, ◌++◌, append_assoc, ◌==◌,
  ltb, list_eq, All, Bool-cases, Option-cases,
}
use rabbit_chain_node.Compute.Types.{Hash, Text, ComputeTx}
use rabbit_chain_node.Compute.Executor.{text_lt}
use rabbit_chain_node.Compute.Batch.{PendingComputeTx}
use rabbit_chain_node.Compute.Scheduler.{
  ComputeSchedulerConfig, Lanes, push_back, submit, pop_ready, retain_lanes, drain_lanes,
  drain_ready, remove_first, take_from_lanes, take_pending,
}
use rabbit_chain_node.Compute.Scheduler.Queues.{Call, submits, drains, takes, calls}

-- The entries of `xs` are entries of `ys`, in the order that they have there.
abbrev pub IsWithin : List PendingComputeTx → List PendingComputeTx → Type 0
IsWithin xs [] = xs ≡ []
IsWithin xs (y ∷ ys) =
    IsWithin xs ys ⊎ ((rest : List PendingComputeTx) × (xs ≡ y ∷ rest) × IsWithin rest ys)

nil-IsWithin : (ys : List PendingComputeTx) → IsWithin [] ys
nil-IsWithin [] = refl
nil-IsWithin (y ∷ ys) = inl (nil-IsWithin ys)

IsWithin-refl : (xs : List PendingComputeTx) → IsWithin xs xs
IsWithin-refl [] = refl
IsWithin-refl (x ∷ xs) = inr (xs, refl, IsWithin-refl xs)

IsWithin-append : (xs ys zs : List PendingComputeTx) → IsWithin xs ys → IsWithin xs (ys ++ zs)
IsWithin-append xs [] zs h = subst (λ l. IsWithin l zs) (sym h) (nil-IsWithin zs)
IsWithin-append xs (y ∷ ys) zs (inl h) = inl (IsWithin-append xs ys zs h)
IsWithin-append xs (y ∷ ys) zs (inr (rest, e, h)) = inr (rest, e, IsWithin-append rest ys zs h)

IsWithin-snoc :
    (p : PendingComputeTx) (xs ys : List PendingComputeTx)
    → IsWithin xs ys
    → IsWithin (xs ++ p ∷ []) (ys ++ p ∷ [])
IsWithin-snoc p xs [] h = inr ([], ap (λ l. l ++ p ∷ []) h, refl)
IsWithin-snoc p xs (y ∷ ys) (inl h) = inl (IsWithin-snoc p xs ys h)
IsWithin-snoc p xs (y ∷ ys) (inr (rest, e, h)) =
    inr (rest ++ p ∷ [], ap (λ l. l ++ p ∷ []) e, IsWithin-snoc p rest ys h)

IsWithin-trans :
    (xs ys zs : List PendingComputeTx) → IsWithin xs ys → IsWithin ys zs → IsWithin xs zs
IsWithin-trans xs ys [] h k = subst (λ l. IsWithin xs l) k h
IsWithin-trans xs ys (z ∷ zs) h (inl k) = inl (IsWithin-trans xs ys zs h k)
IsWithin-trans xs ys (z ∷ zs) h (inr (rest, e, k)) =
    let split : IsWithin xs (z ∷ rest) = subst (λ l. IsWithin xs l) e h in
    elim split [
      | inl g ↦ inl (IsWithin-trans xs rest zs g k)
      | inr (more, f, g) ↦ inr (more, f, IsWithin-trans more rest zs g k)
    ]

pop_ready-IsWithin :
    (window now : ℕ) (queue : List PendingComputeTx) → IsWithin (pop_ready window now queue).1 queue
unfolding pop_ready
pop_ready-IsWithin window now [] = refl
pop_ready-IsWithin window now (p ∷ queue) = elim (Bool-cases (ltb (now - p.enqueued_at) window)) [
  | inl young ↦ rw young (inr (queue, refl, IsWithin-refl queue))
  | inr aged ↦ rw aged (inl (pop_ready-IsWithin window now queue))
]

remove_first-IsWithin :
    (id : Hash) (queue : List PendingComputeTx) → IsWithin (remove_first id queue).1 queue
unfolding remove_first
remove_first-IsWithin id [] = refl
remove_first-IsWithin id (p ∷ queue) = elim (Bool-cases (p.tx_id == id)) [
  | inl here ↦ rw here (inl (IsWithin-refl queue))
  | inr there ↦ rw there (inr ((remove_first id queue).1, refl, remove_first-IsWithin id queue))
]

-- Every lane has its transactions in the order of `made`.
abbrev pub IsOrdered : List PendingComputeTx → Lanes → Type 0
IsOrdered made lanes = All (λ lane. IsWithin lane.1 made) lanes

IsOrdered-append :
    (made more : List PendingComputeTx) (lanes : Lanes)
    → IsOrdered made lanes
    → IsOrdered (made ++ more) lanes
IsOrdered-append made more [] h = tt
IsOrdered-append made more ((lane, queue) ∷ lanes) h =
    (IsWithin-append queue made more h.0, IsOrdered-append made more lanes h.1)

push_back-IsOrdered :
    (key : Text) (p : PendingComputeTx) (made : List PendingComputeTx) (lanes : Lanes)
    → IsOrdered made lanes
    → IsOrdered (made ++ p ∷ []) (push_back key p lanes)
unfolding push_back
push_back-IsOrdered key p made [] h = (IsWithin-snoc p [] made (nil-IsWithin made), tt)
push_back-IsOrdered key p made ((lane, queue) ∷ lanes) h =
    let single = IsWithin-snoc p [] made (nil-IsWithin made) in
    let others = IsOrdered-append made (p ∷ []) lanes h.1 in
    let same = IsWithin-append queue made (p ∷ []) h.0 in
    elim (Bool-cases (list_eq lane key)) [
      | inl here ↦ rw here (IsWithin-snoc p queue made h.0, others)
      | inr there ↦ elim (Bool-cases (text_lt key lane)) [
        | inl before ↦ rw (there, before) (single, (same, others))
        | inr after ↦ rw (there, after) (same, push_back-IsOrdered key p made lanes h.1)
      ]
    ]

retain_lanes-IsOrdered :
    (made : List PendingComputeTx) (lanes : Lanes)
    → IsOrdered made lanes
    → IsOrdered made (retain_lanes lanes)
unfolding retain_lanes
retain_lanes-IsOrdered made [] h = tt
retain_lanes-IsOrdered made ((lane, []) ∷ lanes) h = retain_lanes-IsOrdered made lanes h.1
retain_lanes-IsOrdered made ((lane, p ∷ queue) ∷ lanes) h =
    (h.0, retain_lanes-IsOrdered made lanes h.1)

drain_lanes-IsOrdered :
    (window now : ℕ) (made : List PendingComputeTx) (lanes : Lanes)
    → IsOrdered made lanes
    → IsOrdered made (drain_lanes window now lanes).1
unfolding drain_lanes
drain_lanes-IsOrdered window now made [] h = tt
drain_lanes-IsOrdered window now made ((lane, queue) ∷ lanes) h = (
  IsWithin-trans (pop_ready window now queue).1 queue made (pop_ready-IsWithin window now queue)
      h.0,
  drain_lanes-IsOrdered window now made lanes h.1,
)

take_from_lanes-IsOrdered :
    (id : Hash) (made : List PendingComputeTx) (lanes : Lanes)
    → IsOrdered made lanes
    → IsOrdered made (take_from_lanes id lanes).1
unfolding take_from_lanes
take_from_lanes-IsOrdered id made [] h = tt
take_from_lanes-IsOrdered id made ((lane, queue) ∷ lanes) h =
    let left =
      IsWithin-trans (remove_first id queue).1 queue made (remove_first-IsWithin id queue) h.0 in
    elim (Option-cases (remove_first id queue).0) [
      | inl missing ↦
          rw (missing, take_from_lanes) (h.0, take_from_lanes-IsOrdered id made lanes h.1)
      | inr (p, found) ↦ rw (found, take_from_lanes) (left, h.1)
    ]

-- The queue entry of a submission.
abbrev pub entry_of : ComputeSchedulerConfig → ℕ → ComputeTx → PendingComputeTx
entry_of config now tx = record {
  tx = tx;
  tx_id = tx.tx_id;
  domain_id = tx.domain_id;
  lane_key = config.lane_strategy tx;
  enqueued_at = now;
}

pub submit_lanes :
    (config : ComputeSchedulerConfig) (now unix_secs : ℕ) (tx : ComputeTx) (lanes : Lanes)
    → ((submit config now unix_secs tx lanes).1 ≡ lanes)
      ⊎ ((submit config now unix_secs tx lanes).1
          ≡ push_back (config.lane_strategy tx) (entry_of config now tx) lanes)
unfolding submit
submit_lanes config now unix_secs tx lanes = ground arith

-- The queue entries that the submissions among the calls ask for, in order.
abbrev pub submissions : ComputeSchedulerConfig → List Call → List PendingComputeTx
submissions config [] = []
submissions config (submits now unix_secs tx ∷ cs) = entry_of config now tx ∷ submissions config cs
submissions config (drains now ∷ cs) = submissions config cs
submissions config (takes id ∷ cs) = submissions config cs

module _ (config : ComputeSchedulerConfig) where
  submit-IsOrdered :
      (now unix_secs : ℕ) (tx : ComputeTx) (made : List PendingComputeTx) (lanes : Lanes)
      → IsOrdered made lanes
      → IsOrdered (made ++ entry_of config now tx ∷ []) (submit config now unix_secs tx lanes).1
  submit-IsOrdered now unix_secs tx made lanes h =
      let p = entry_of config now tx in
      elim (submit_lanes config now unix_secs tx lanes) [
        | inl same ↦
            subst (λ l. IsOrdered (made ++ p ∷ []) l) (sym same)
              (IsOrdered-append made (p ∷ []) lanes h)
        | inr more ↦
            subst (λ l. IsOrdered (made ++ p ∷ []) l) (sym more)
              (push_back-IsOrdered (config.lane_strategy tx) p made lanes h)
      ]

  pub calls-IsOrdered :
      (cs : List Call) (made : List PendingComputeTx) (lanes : Lanes)
      → IsOrdered made lanes
      → IsOrdered (made ++ submissions config cs) (calls config cs lanes)
  calls-IsOrdered [] made lanes h = IsOrdered-append made [] lanes h
  calls-IsOrdered (submits now unix_secs tx ∷ cs) made lanes h =
      let p = entry_of config now tx in
      let after = (submit config now unix_secs tx lanes).1 in
      subst (λ l. IsOrdered l (calls config cs after))
        (append_assoc made (p ∷ []) (submissions config cs))
        (calls-IsOrdered cs (made ++ p ∷ []) after (submit-IsOrdered now unix_secs tx made lanes h))
  calls-IsOrdered (drains now ∷ cs) made lanes h =
      calls-IsOrdered cs made (drain_ready config now lanes).1 (
        unfold drain_ready in
        retain_lanes-IsOrdered made (drain_lanes config.batch_window_ms now lanes).1
          (drain_lanes-IsOrdered config.batch_window_ms now made lanes h))
  calls-IsOrdered (takes id ∷ cs) made lanes h = calls-IsOrdered cs made (take_pending id lanes).1 (
      unfold take_pending in
      retain_lanes-IsOrdered made (take_from_lanes id lanes).1
        (take_from_lanes-IsOrdered id made lanes h))
