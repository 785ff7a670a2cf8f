-- ===== src/Compute/Tests/SchedulerRuns.antt =====
-- Runs of the scheduler.
use rabbit_chain_node.Prelude.{◌≤◌, ◌≡◌, refl, List, [], ◌∷◌, count, list_eq}
use rabbit_chain_node.Compute.Executor.{text_lt}
use rabbit_chain_node.Compute.Batch.Plan.{pending_ids}
use rabbit_chain_node.Compute.Scheduler.{
  ComputeSchedulerConfig, Lanes, pending_len, push_back, submit, drain_ready, drain_lanes,
  pop_ready, retain_lanes,
}
use rabbit_chain_node.Compute.Scheduler.Queues.{Call, submits, calls, pending_len_bounded}
use rabbit_chain_node.Compute.Tests.Samples.{payment}

-- Two places, one lane, and a window of 10 milliseconds.
abbrev config : ComputeSchedulerConfig
config = record {
  batch_window_ms = 10;
  max_batch_size = 8;
  max_pending = 2;
  lane_strategy = λ tx. b'd' ∷ [];
}

abbrev busy : List Call
busy = submits 0 0 payment ∷ submits 7 0 payment ∷ submits 9 0 payment ∷ []

abbrev lanes : Lanes
lanes = calls config busy []

pending_len_bounded_example : pending_len (calls config busy []) ≤ 2
pending_len_bounded_example = pending_len_bounded config busy

-- The third submission is refused.
full : pending_len lanes ≡ 2
unfolding pending_len push_back submit list_eq text_lt
full = refl

-- After 12 milliseconds the first of the two is ready.

one_ready : count 99 (pending_ids (drain_ready config 12 lanes).0) ≡ 1
unfolding pending_len push_back submit list_eq text_lt drain_ready drain_lanes pop_ready
    retain_lanes
one_ready = refl
