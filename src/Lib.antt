-- ===== src/Lib.antt =====
-- RabbitChain: the core of the node, the crate crates/rabbitcore.
--
-- A transaction of the compute layer (crates/rabbitcore/src/compute) consumes versioned outputs of an object
-- store and proposes new ones. The validator checks its form, resolves its inputs and reads, checks the
-- lineage of its proposals, and asks an authorization policy and a resource policy. The executor registers
-- the nonce of a validated transaction, spends the inputs and stores the proposals. Pending transactions are
-- planned into groups without conflicts, gas and fees are priced by the fee market, and blocks commit to
-- transactions and receipts under a proof of work whose difficulty follows the block times. Governance
-- decides proposals by stake and pays from a treasury ledger. The block executor checks each transaction of a
-- block, runs it on the object store, moves fees, rewards and tokens in the state database, and compares the
-- receipts.
--
-- The files, and the code that each is about:
--   Prelude            shared names, machine words, lists, and maps as association lists
--   Compute/Types      compute/primitives.rs, compute/object.rs, the records of compute/tx.rs, compute/error.rs
--   Compute/Store      `InMemoryObjectStore` (compute/execution.rs); a HashMap is an association list, and the
--                      write locks are the passing on of the store
--   Compute/Validate   `BasicTxValidator` and the envelope and lifecycle checks (compute/execution.rs)
--   Compute/Executor   `BasicTxExecutor` and the nonce registry (compute/execution.rs); an operation that fails
--                      half-way returns the state as it leaves it
--   Compute/Tx         `basic_sanity_check`; Compute/Tx/Preimage: `signing_preimage` and its encoders
--                      (compute/tx.rs)
--   Compute/Policy     `DefaultAuthorizationPolicy`, lock scripts and `NoopResourcePolicy` (compute/policy.rs)
--   Compute/Gas        the gas estimate, the base fee and fee validation (compute/gas.rs)
--   Compute/Batch      access sets, conflicts and the greedy planner (compute/batch.rs)
--   Compute/Scheduler  `InMemoryComputeScheduler`, its lanes in the order of their keys (compute/scheduler.rs)
--   Compute/Runner     the sequential part of the batch runner (compute/batch.rs)
--   Block              headers, bodies, Merkle roots, proof of work; Block/Difficulty: the difficulty
--                      controller (block/mod.rs)
--   Governance         proposals, votes, the count, execution and the treasury ledger (governance.rs)
--   State              `StateDb` (state/mod.rs); State/Executor, State/Payments, State/Governed, State/Rewards,
--                      State/Prechecks, State/Blocks: `StateExecutor` (state/executor.rs), its effects on money,
--                      the checks before a transaction and the commits after it; State/Game: the operations
--                      and rules of game.rs that the executor uses; the other files of State are proofs
--   Account            `U256` on its 32 bytes (account/account.rs)
--   Consensus          the proof-of-work engine `PowConsensus` (consensus/mod.rs)
--   Chain              `Blockchain`: the insertion of blocks and the choice of the best one
--                      (blockchain/chain.rs); Chain/Sync: `SyncManager` (blockchain/sync.rs); Chain/Forks:
--                      fork choice (blockchain/fork_choice.rs)
--   the Tests files    concrete runs
--
-- Numbers. Words are natural numbers with the saturation, the wrap-around or the overflow check of each
-- operation written out. A hash, an address, a key or a `U256` is the number that its bytes spell, most
-- significant byte first. A panic is `none`: a division by zero, and a clamp to an empty range.
--
-- Parameters. What the crates serde_json, shanhai-core and zk compute, the formatting of errors, hash functions,
-- hexadecimal and bincode encoding, signature verification, the clock and the registry of domains are
-- arguments; nothing is assumed of them, except where a theorem names it. JSON values of proposals are a type
-- parameter.
--
-- Fuel. The decimal digits of a nonce have 20 places, enough for every `u64`. The stripping of a repeated
-- prefix of a lock script takes its length as fuel, and each step removes a character. The Merkle root takes
-- the number of leaves as fuel: each level is shorter than the one below it, and it is shown that more fuel
-- changes nothing. The division of a proof-of-work target has exactly 32 steps and the division of two `U256`
-- exactly 256, as in the code. A battle has 500 as fuel, the limit on its rounds, and it is shown to end by the
-- condition of its loop.
--
-- Not modelled: the workers of the batch runner, which are threads over a shared queue, and the service around
-- it, the processing of synchronised blocks, which turns on a lock of the crate parking_lot, the account state
-- machine, RLP, tries, storage, networking, zero-knowledge proofs, the checks of game operations that the API
-- makes, the API and the command line. Threads are not modelled: each operation of the code is one step here,
-- and a lock is the passing on of the state.
pub mod Prelude
pub mod Compute
pub mod Governance
pub mod Block
pub mod State
pub mod Account
pub mod Consensus
pub mod Chain
