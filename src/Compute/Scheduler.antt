-- ===== src/Compute/Scheduler.antt =====
-- The in-memory scheduler (compute/scheduler.rs). The `BTreeMap` of lanes is the list of its entries in
-- the order of their keys. The lane strategy, a trait object, is a parameter; the clocks are arguments.
pub mod Queues
pub mod Order
pub mod Liveness
use rabbit_chain_node.Prelude.{
  ℕ, ◌+◌, ◌-◌, Bool, List, [], ◌∷◌, ◌++◌, Option, none, some, ltb, leb, ◌==◌, if◌then◌else◌, length,
  list_eq,
}
use rabbit_chain_node.Compute.Types.{Hash, Text, ComputeTx}
use rabbit_chain_node.Compute.Executor.{text_lt}
use rabbit_chain_node.Compute.Batch.{PendingComputeTx}

pub record ComputeSchedulerConfig : Type 0 where
  pub batch_window_ms : ℕ
  pub max_batch_size : ℕ
  pub max_pending : ℕ
  pub lane_strategy : ComputeTx → Text

pub record ComputeScheduleTicket : Type 0 where
  pub tx_id : Hash
  pub domain_id : ℕ
  pub lane_key : Text
  pub accepted_at_unix_secs : ℕ
  pub queue_depth : ℕ

pub data ScheduleResult : Type 0 where
  accepted : ComputeScheduleTicket → ScheduleResult
  queue_full : ScheduleResult

abbrev pub Lanes : Type 0
Lanes = List (Text × List PendingComputeTx)

-- `pending_len_locked`
unfoldable pub pending_len : Lanes → ℕ
pending_len [] = 0
pending_len ((_, queue) ∷ lanes) = length queue + pending_len lanes

-- `queue.entry(lane_key).or_default().push_back(pending)`
unfoldable pub push_back : Text → PendingComputeTx → Lanes → Lanes
push_back key pending [] = (key, pending ∷ []) ∷ []
push_back key pending ((lane, queue) ∷ lanes) =
    let rest = push_back key pending lanes in
    if list_eq lane key
    then (lane, queue ++ (pending ∷ [])) ∷ lanes
    else (if text_lt key lane
        then (key, pending ∷ []) ∷ (lane, queue) ∷ lanes
        else (lane, queue) ∷ rest)

-- `submit`, at the time `now` on the monotonic clock and `unix_secs` on the wall clock.
unfoldable pub submit : ComputeSchedulerConfig → ℕ → ℕ → ComputeTx → Lanes → ScheduleResult × Lanes
submit config now unix_secs tx lanes =
    if leb config.max_pending (pending_len lanes)
    then (queue_full, lanes)
    else (let key = config.lane_strategy tx in
        let pending : PendingComputeTx = record {
          tx = tx;
          tx_id = tx.tx_id;
          domain_id = tx.domain_id;
          lane_key = key;
          enqueued_at = now;
        } in
        let lanes' = push_back key pending lanes in
        (
          accepted (record {
            tx_id = tx.tx_id;
            domain_id = tx.domain_id;
            lane_key = key;
            accepted_at_unix_secs = unix_secs;
            queue_depth = pending_len lanes';
          }),
          lanes',
        ))

-- The `while` loop on one lane: what is popped from its front, and what is left.
unfoldable pub pop_ready :
    ℕ → ℕ → List PendingComputeTx → List PendingComputeTx × List PendingComputeTx
pop_ready window now [] = ([], [])
pop_ready window now (front ∷ queue) =
    let (ready, left) = pop_ready window now queue in
    if ltb (now - front.enqueued_at) window then ([], front ∷ queue) else (front ∷ ready, left)

-- `retain(|_, lane_queue| !lane_queue.is_empty())`
abbrev retain_lane : Text → List PendingComputeTx → Lanes → Lanes
retain_lane lane [] lanes = lanes
retain_lane lane (p ∷ queue) lanes = (lane, p ∷ queue) ∷ lanes

unfoldable pub retain_lanes : Lanes → Lanes
retain_lanes [] = []
retain_lanes ((lane, queue) ∷ lanes) = retain_lane lane queue (retain_lanes lanes)

-- The loop of `drain_ready` over the lanes.
unfoldable pub drain_lanes : ℕ → ℕ → Lanes → List PendingComputeTx × Lanes
drain_lanes window now [] = ([], [])
drain_lanes window now ((lane, queue) ∷ lanes) =
    let (ready, left) = pop_ready window now queue in
    let (more, lanes') = drain_lanes window now lanes in (ready ++ more, (lane, left) ∷ lanes')

unfoldable pub drain_ready : ComputeSchedulerConfig → ℕ → Lanes → List PendingComputeTx × Lanes
drain_ready config now lanes =
    let (ready, lanes') = drain_lanes config.batch_window_ms now lanes in
    (ready, retain_lanes lanes')

-- `position` and `remove` on one lane.
unfoldable pub remove_first :
    Hash → List PendingComputeTx → Option PendingComputeTx × List PendingComputeTx
remove_first id [] = (none, [])
remove_first id (p ∷ queue) =
    let (found, left) = remove_first id queue in
    if p.tx_id == id then (some p, queue) else (found, p ∷ left)

-- The loop of `take_pending`, which ends at the first lane that has the transaction.
unfoldable pub take_from_lanes : Hash → Lanes → Option PendingComputeTx × Lanes
take_from_lanes id [] = (none, [])
take_from_lanes id ((lane, queue) ∷ lanes) =
    let (found, left) = remove_first id queue in
    let (later, lanes') = take_from_lanes id lanes in
    elim found [ some p ↦ (some p, (lane, left) ∷ lanes) | none ↦ (later, (lane, queue) ∷ lanes') ]

unfoldable pub take_pending : Hash → Lanes → Option PendingComputeTx × Lanes
take_pending id lanes =
    let (removed, lanes') = take_from_lanes id lanes in (removed, retain_lanes lanes')
