-- ===== src/Compute/Scheduler/Liveness.antt =====
-- Every queued transaction comes out: a drain late enough empties the scheduler.
use rabbit_chain_node.Prelude.{ℕ, ◌≤◌, List, [], ◌∷◌, ◌++◌, All}
use rabbit_chain_node.Compute.Batch.{PendingComputeTx}
use rabbit_chain_node.Compute.Scheduler.{Lanes}
use rabbit_chain_node.Compute.Scheduler.Queues.{Call, submits, drains, takes}

-- The transactions in the queues, lane by lane.
abbrev pub waiting : Lanes → List PendingComputeTx
waiting [] = []
waiting ((_, queue) ∷ lanes) = queue ++ waiting lanes

-- Every entry came by the time `t`.
abbrev pub IsQueueBy : ℕ → List PendingComputeTx → Type 0
IsQueueBy t queue = All (λ p. p.enqueued_at ≤ t) queue

abbrev pub IsBy : ℕ → Lanes → Type 0
IsBy t lanes = All (λ lane. IsQueueBy t lane.1) lanes

module _ (t : ℕ) where
  -- The call submits nothing after the time `t`.
  abbrev pub IsCallBy : Call → Type 0
  IsCallBy (submits now unix_secs tx) = now ≤ t
  IsCallBy (drains now) = Unit
  IsCallBy (takes id) = Unit
