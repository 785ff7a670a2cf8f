-- ===== src/Compute/Tests/RunnerRuns.antt =====
-- Runs of the batch runner, and of a late drain of the scheduler.
use rabbit_chain_node.Prelude.{◌≡◌, refl, List, [], ◌∷◌, arith}
use rabbit_chain_node.Compute.Types.{ComputeTx, ok}
use rabbit_chain_node.Compute.Validate.{validate}
use rabbit_chain_node.Compute.Executor.{commit_store}
use rabbit_chain_node.Compute.Runner.{outcome_of, run_single}
use rabbit_chain_node.Compute.Runner.Serial.{run_single-reuses_nonce}
use rabbit_chain_node.Compute.Scheduler.{ComputeSchedulerConfig}
use rabbit_chain_node.Compute.Scheduler.Queues.{Call, submits, drains}
use rabbit_chain_node.Compute.Tests.Samples.{
  change, transfer, store, encoders, backends, payment, report, opened,
}

-- A payment, and one from another coin with the same nonce.
abbrev other : ComputeTx
other = record (transfer (2 ∷ []) (change 4 2 20 ∷ [])) { tx_id = 98 }

valid : validate backends store payment ≡ ok report
unfolding opened
valid = refl

committed : commit_store payment report store ≡ (ok report, (commit_store payment report store).1)
unfolding opened
committed = refl

run_single-reuses_nonce_example :
    run_single encoders backends 100 payment store
    ≡ (outcome_of 99 payment (ok report), (commit_store payment report store).1)
run_single-reuses_nonce_example =
    run_single-reuses_nonce encoders backends 100 payment store
      (commit_store payment report store).1 report (omega arith) valid committed

-- Two places, one lane, and a window of 10 milliseconds.
abbrev config : ComputeSchedulerConfig
config = record {
  batch_window_ms = 10;
  max_batch_size = 8;
  max_pending = 2;
  lane_strategy = λ tx. b'd' ∷ [];
}

abbrev busy : List Call
busy = submits 0 0 payment ∷ drains 11 ∷ submits 7 0 payment ∷ submits 9 0 other ∷ []
