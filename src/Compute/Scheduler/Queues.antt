-- ===== src/Compute/Scheduler/Queues.antt =====
-- What the queues of the scheduler hold: nothing is lost, and no more than the bound.
use rabbit_chain_node.Prelude.{
  ℕ, ◌+◌, ◌-◌, ◌≤◌, ◌≡◌, refl, inl, inr, List, [], ◌∷◌, ◌++◌, ◌==◌, ltb, length, length-append,
  list_eq, count, count-append, arith, Bool-cases, Option-cases,
}
use rabbit_chain_node.Compute.Types.{Hash, Text, ComputeTx}
use rabbit_chain_node.Compute.Executor.{text_lt}
use rabbit_chain_node.Compute.Batch.{PendingComputeTx}
use rabbit_chain_node.Compute.Batch.Plan.{pending_ids}
use rabbit_chain_node.Compute.Scheduler.{
  ComputeSchedulerConfig, Lanes, pending_len, push_back, submit, pop_ready, retain_lanes,
  drain_lanes, drain_ready, remove_first, take_from_lanes, take_pending,
}

-- The identifiers in the queues.
abbrev pub queued : Lanes → List Hash
queued [] = []
queued ((_, queue) ∷ lanes) = pending_ids queue ++ queued lanes

length-pending_ids : (ps : List PendingComputeTx) → length (pending_ids ps) ≡ length ps
length-pending_ids [] = refl
length-pending_ids (p ∷ ps) = omega (arith, length-pending_ids ps)

length-queued : (lanes : Lanes) → length (queued lanes) ≡ pending_len lanes
unfolding pending_len
length-queued [] = refl
length-queued ((lane, queue) ∷ lanes) = omega (
  arith,
  length-append (pending_ids queue) (queued lanes),
  length-pending_ids queue,
  length-queued lanes,
)

module _ (id : Hash) where
  abbrev held : List PendingComputeTx → ℕ
  held ps = count id (pending_ids ps)

  abbrev waiting : Lanes → ℕ
  waiting [] = 0
  waiting ((_, queue) ∷ lanes) = held queue + waiting lanes

  held-append : (xs ys : List PendingComputeTx) → held (xs ++ ys) ≡ held xs + held ys
  held-append [] ys = omega arith
  held-append (x ∷ xs) ys = omega (arith, held-append xs ys)

  count-queued : (lanes : Lanes) → count id (queued lanes) ≡ waiting lanes
  count-queued [] = refl
  count-queued ((lane, queue) ∷ lanes) =
      omega (arith, count-append id (pending_ids queue) (queued lanes), count-queued lanes)

  waiting-retain_lanes : (lanes : Lanes) → waiting (retain_lanes lanes) ≡ waiting lanes
  unfolding retain_lanes
  waiting-retain_lanes [] = refl
  waiting-retain_lanes ((lane, []) ∷ lanes) = omega (arith, waiting-retain_lanes lanes)
  waiting-retain_lanes ((lane, p ∷ queue) ∷ lanes) = omega (arith, waiting-retain_lanes lanes)

  held-pop_ready :
      (window now : ℕ) (queue : List PendingComputeTx)
      → held (pop_ready window now queue).0 + held (pop_ready window now queue).1 ≡ held queue
  unfolding pop_ready
  held-pop_ready window now [] = omega arith
  held-pop_ready window now (p ∷ queue) = elim (Bool-cases (ltb (now - p.enqueued_at) window)) [
    | inl young ↦ rw young (omega arith)
    | inr aged ↦ rw aged (omega (arith, held-pop_ready window now queue))
  ]

  waiting-drain_lanes :
      (window now : ℕ) (lanes : Lanes)
      → held (drain_lanes window now lanes).0 + waiting (drain_lanes window now lanes).1
        ≡ waiting lanes
  unfolding drain_lanes
  waiting-drain_lanes window now [] = omega arith
  waiting-drain_lanes window now ((lane, queue) ∷ lanes) = omega (
    arith,
    held-append (pop_ready window now queue).0 (drain_lanes window now lanes).0,
    held-pop_ready window now queue,
    waiting-drain_lanes window now lanes,
  )

  -- A drain splits what is queued into what it returns and what stays: no transaction is lost or doubled.
  pub drain_ready-count :
      (config : ComputeSchedulerConfig) (now : ℕ) (lanes : Lanes)
      → count id (pending_ids (drain_ready config now lanes).0)
          + count id (queued (drain_ready config now lanes).1)
        ≡ count id (queued lanes)
  unfolding drain_ready
  drain_ready-count config now lanes =
      let drained = drain_lanes config.batch_window_ms now lanes in
      omega (
        arith,
        count-queued (retain_lanes drained.1),
        waiting-retain_lanes drained.1,
        waiting-drain_lanes config.batch_window_ms now lanes,
        count-queued lanes,
      )

pending_len-push_back :
    (key : Text) (p : PendingComputeTx) (lanes : Lanes)
    → pending_len (push_back key p lanes) ≡ pending_len lanes + 1
unfolding pending_len push_back
pending_len-push_back key p [] = omega arith
pending_len-push_back key p ((lane, queue) ∷ lanes) = elim (Bool-cases (list_eq lane key)) [
  | inl here ↦ rw here (omega (arith, length-append queue (p ∷ [])))
  | inr there ↦ elim (Bool-cases (text_lt key lane)) [
    | inl before ↦ rw (there, before) (omega arith)
    | inr after ↦ rw (there, after) (omega (arith, pending_len-push_back key p lanes))
  ]
]

pending_len-retain_lanes : (lanes : Lanes) → pending_len (retain_lanes lanes) ≡ pending_len lanes
unfolding pending_len retain_lanes
pending_len-retain_lanes [] = refl
pending_len-retain_lanes ((lane, []) ∷ lanes) = omega (arith, pending_len-retain_lanes lanes)
pending_len-retain_lanes ((lane, p ∷ queue) ∷ lanes) = omega (arith, pending_len-retain_lanes lanes)

length-pop_ready :
    (window now : ℕ) (queue : List PendingComputeTx)
    → length (pop_ready window now queue).1 ≤ length queue
unfolding pop_ready
length-pop_ready window now [] = omega arith
length-pop_ready window now (p ∷ queue) = elim (Bool-cases (ltb (now - p.enqueued_at) window)) [
  | inl young ↦ rw young (omega arith)
  | inr aged ↦ rw aged (omega (arith, length-pop_ready window now queue))
]

pending_len-drain_lanes :
    (window now : ℕ) (lanes : Lanes)
    → pending_len (drain_lanes window now lanes).1 ≤ pending_len lanes
unfolding pending_len drain_lanes
pending_len-drain_lanes window now [] = omega arith
pending_len-drain_lanes window now ((lane, queue) ∷ lanes) =
    omega (arith, length-pop_ready window now queue, pending_len-drain_lanes window now lanes)

length-remove_first :
    (id : Hash) (queue : List PendingComputeTx) → length (remove_first id queue).1 ≤ length queue
unfolding remove_first
length-remove_first id [] = omega arith
length-remove_first id (p ∷ queue) = elim (Bool-cases (p.tx_id == id)) [
  | inl here ↦ rw here (omega arith)
  | inr there ↦ rw there (omega (arith, length-remove_first id queue))
]

pending_len-take_from_lanes :
    (id : Hash) (lanes : Lanes) → pending_len (take_from_lanes id lanes).1 ≤ pending_len lanes
unfolding pending_len take_from_lanes
pending_len-take_from_lanes id [] = omega arith
pending_len-take_from_lanes id ((lane, queue) ∷ lanes) =
    elim (Option-cases (remove_first id queue).0) [
      | inl missing ↦
          rw (missing, take_from_lanes) (omega (arith, pending_len-take_from_lanes id lanes))
      | inr (p, found) ↦ rw (found, take_from_lanes) (omega (arith, length-remove_first id queue))
    ]

-- A call of the scheduler.
pub data Call : Type 0 where
  submits : ℕ → ℕ → ComputeTx → Call
  drains : ℕ → Call
  takes : Hash → Call

module _ (config : ComputeSchedulerConfig) where
  abbrev pub call : Call → Lanes → Lanes
  call (submits now unix_secs tx) lanes = (submit config now unix_secs tx lanes).1
  call (drains now) lanes = (drain_ready config now lanes).1
  call (takes id) lanes = (take_pending id lanes).1

  abbrev pub calls : List Call → Lanes → Lanes
  calls [] lanes = lanes
  calls (c ∷ cs) lanes = calls cs (call c lanes)

  call_bounded :
      (c : Call) (lanes : Lanes)
      → pending_len lanes ≤ config.max_pending
      → pending_len (call c lanes) ≤ config.max_pending
  unfolding submit drain_ready take_pending
  call_bounded (submits now unix_secs tx) lanes h = ground (
    arith,
    pending_len-push_back (config.lane_strategy tx)
        (record {
          tx = tx;
          tx_id = tx.tx_id;
          domain_id = tx.domain_id;
          lane_key = config.lane_strategy tx;
          enqueued_at = now;
        })
        lanes,
  )
  call_bounded (drains now) lanes h = omega (
    arith,
    pending_len-retain_lanes (drain_lanes config.batch_window_ms now lanes).1,
    pending_len-drain_lanes config.batch_window_ms now lanes,
  )
  call_bounded (takes id) lanes h = omega (
    arith,
    pending_len-retain_lanes (take_from_lanes id lanes).1,
    pending_len-take_from_lanes id lanes,
  )

  calls_bounded :
      (cs : List Call) (lanes : Lanes)
      → pending_len lanes ≤ config.max_pending
      → pending_len (calls cs lanes) ≤ config.max_pending
  calls_bounded [] lanes h = h
  calls_bounded (c ∷ cs) lanes h = calls_bounded cs (call c lanes) (call_bounded c lanes h)

  -- Whatever is submitted, drained and taken from the empty scheduler on, it holds no more transactions
  -- than its configuration allows.
  pub pending_len_bounded : (cs : List Call) → pending_len (calls cs []) ≤ config.max_pending
  unfolding pending_len
  pending_len_bounded cs = calls_bounded cs [] (omega arith)
