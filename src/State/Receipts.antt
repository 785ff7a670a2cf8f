-- ===== src/State/Receipts.antt =====
-- The receipts of a block: what the executor computes, and when it accepts the declared ones.
use rabbit_chain_node.Prelude.{
  ℕ, ◌%◌, ◌^◌, ◌≡◌, ◌↔◌, ◌⊎◌, refl, ap, inl, inr, true, List, [], ◌∷◌, Option, none, some, ◌==◌,
  list_eq, list_eq→eq, list_eq_refl, arith, length, Bool-cases, sat_add_u64,
}
use rabbit_chain_node.Compute.Types.{Hash, Text, ComputeTx}
use rabbit_chain_node.Compute.Executor.{Registry, execute}
use rabbit_chain_node.Compute.Results.{ComputeResult-cases}
use rabbit_chain_node.Block.{BlockHeader, BlockBody, Receipt, ReceiptStatus}
use rabbit_chain_node.State.Executor.{ok, StateExecutor}
use rabbit_chain_node.State.Game.{Libraries}
use rabbit_chain_node.State.Blocks.{
  Environment, StateTransition, failed_receipt, success_receipt, precheck, commit_effects, settle,
  execute_tx, execute_txs, same_status, same_error, validate_receipt, validate_receipts,
  execute_block,
}
use rabbit_chain_node.State.Frame.{Result-cases}

-- A receipt of the executor: a success is charged the estimate and lists the proposed outputs; a failure
-- is charged nothing, lists none and has a text.
abbrev pub IsReceipt : ComputeTx → Receipt → Type 0
IsReceipt tx r = (r ≡ success_receipt tx) ⊎ ((text : Text) × (r ≡ failed_receipt tx text))

abbrev pub Receipted : List ComputeTx → List Receipt → Type 0
Receipted [] [] = Unit
Receipted (tx ∷ txs) (r ∷ rs) = IsReceipt tx r × Receipted txs rs
Receipted _ _ = ⊥

module _ {V T M P : Type 0} (lib : Libraries V T M P) (env : Environment) (base_fee t : ℕ) where
  settle-IsReceipt :
      (tx : ComputeTx) (nonces : Registry) (x : StateExecutor V)
      → IsReceipt tx (settle lib env base_fee t tx nonces x).receipt
  unfolding settle
  settle-IsReceipt tx nonces x = elim (Result-cases (commit_effects lib env base_fee t tx x).0) [
    | inl (done, e) ↦ rw (e, settle) (inl refl)
    | inr (failure, e) ↦ rw (e, settle) (inr (env.block_text failure, refl))
  ]

  execute_tx-IsReceipt :
      (tx : ComputeTx) (nonces : Registry) (x : StateExecutor V)
      → IsReceipt tx (execute_tx lib env base_fee t tx nonces x).receipt
  unfolding execute_tx
  execute_tx-IsReceipt tx nonces x = elim (Result-cases (precheck lib env base_fee t tx x)) [
    | inr (failure, e) ↦ rw (e, execute_tx) (inr (env.block_text failure, refl))
    | inl (done, e) ↦
        let run =
          execute env.encoders env.backends (env.now tx) tx
            (record { store = x.compute_store; replay_nonce_registry = nonces }) in
        elim (ComputeResult-cases run.0) [
          | inr (failure, r) ↦ rw (e, r, execute_tx) (inr (env.compute_text failure, refl))
          | inl (report, r) ↦
              rw (e, r, execute_tx)
                (settle-IsReceipt tx run.1.replay_nonce_registry
                  (record x { compute_store = run.1.store }))
        ]
  ]

  -- The executor makes one receipt for each transaction, in order: a success with the estimated gas and
  -- the proposed outputs, or a failure without gas and outputs.
  pub execute_txs-Receipted :
      (txs : List ComputeTx) (gas : ℕ) (nonces : Registry) (x : StateExecutor V)
      → Receipted txs (execute_txs lib env base_fee t txs gas nonces x).0.0
  unfolding execute_txs
  execute_txs-Receipted [] gas nonces x = tt
  execute_txs-Receipted (tx ∷ txs) gas nonces x =
      let step = execute_tx lib env base_fee t tx nonces x in
      (
        execute_tx-IsReceipt tx nonces x,
        execute_txs-Receipted txs (sat_add_u64 gas step.gas) step.nonces step.executor,
      )

length-Receipted :
    (txs : List ComputeTx) (rs : List Receipt) → Receipted txs rs → length rs ≡ length txs
length-Receipted [] [] h = refl
length-Receipted [] (r ∷ rs) h = absurd h
length-Receipted (tx ∷ txs) [] h = absurd h
length-Receipted (tx ∷ txs) (r ∷ rs) h = omega (arith, length-Receipted txs rs h.1)

-- The declared receipt names the transaction and repeats what was computed.
pub record Repeats (tx : ComputeTx) (computed declared : Receipt) : Type 0 where
  pub tx_id : tx.tx_id ≡ declared.tx_id
  pub status : computed.status ≡ declared.status
  pub gas_used : computed.gas_used ≡ declared.gas_used
  pub output_refs : computed.output_refs ≡ declared.output_refs
  pub error : computed.error ≡ declared.error

abbrev pub Repeated : List ComputeTx → List Receipt → List Receipt → Type 0
Repeated [] [] [] = Unit
Repeated (tx ∷ txs) (c ∷ cs) (d ∷ ds) = Repeats tx c d × Repeated txs cs ds
Repeated _ _ _ = ⊥

same_status_sound : (a b : ReceiptStatus) → same_status a b ≡ true → a ≡ b
same_status_sound a b h = ground arith

same_status_refl : (a : ReceiptStatus) → same_status a a ≡ true
same_status_refl a = ground arith

same_error_sound : (a b : Option Text) → same_error a b ≡ true → a ≡ b
same_error_sound none none h = refl
same_error_sound none (some b) h = cc
same_error_sound (some a) none h = cc
same_error_sound (some a) (some b) h = ap some (list_eq→eq a b h)

same_error_refl : (a : Option Text) → same_error a a ≡ true
same_error_refl none = refl
same_error_refl (some a) = list_eq_refl a

validate_receipt-Repeats :
    (tx : ComputeTx) (c d : Receipt)
    → tx.tx_id ≡ d.tx_id
    → validate_receipt tx c d ≡ ok tt
    → Repeats tx c d
unfolding validate_receipt
validate_receipt-Repeats tx c d id h =
    let status : same_status c.status d.status ≡ true = ground (arith, h) in
    let refs : list_eq c.output_refs d.output_refs ≡ true = ground (arith, h) in
    let error : same_error c.error d.error ≡ true = ground (arith, h) in
    record {
      tx_id = id;
      status = same_status_sound c.status d.status status;
      gas_used = ground (arith, h);
      output_refs = list_eq→eq c.output_refs d.output_refs refs;
      error = same_error_sound c.error d.error error;
    }

Repeats-valid : (tx : ComputeTx) (c d : Receipt) → Repeats tx c d → validate_receipt tx c d ≡ ok tt
unfolding validate_receipt
Repeats-valid tx c d h =
    rw (h.status, h.output_refs, h.error)
      (ground (
        arith,
        h.gas_used,
        same_status_refl d.status,
        list_eq_refl d.output_refs,
        same_error_refl d.error,
      ))

validate_receipts-Repeated :
    (txs : List ComputeTx) (cs ds : List Receipt)
    → length cs ≡ length txs
    → length ds ≡ length txs
    → validate_receipts txs cs ds ≡ ok tt
    → Repeated txs cs ds
unfolding validate_receipts
validate_receipts-Repeated [] [] [] c d h = tt
validate_receipts-Repeated [] (c' ∷ cs) ds c d h = absurd (omega arith)
validate_receipts-Repeated [] [] (d' ∷ ds) c d h = absurd (omega arith)
validate_receipts-Repeated (tx ∷ txs) [] ds c d h = absurd (omega arith)
validate_receipts-Repeated (tx ∷ txs) (c' ∷ cs) [] c d h = absurd (omega arith)
validate_receipts-Repeated (tx ∷ txs) (c' ∷ cs) (d' ∷ ds) c d h =
    elim (Bool-cases (tx.tx_id == d'.tx_id)) [
      | inr other ↦ absurd (ground (arith, h))
      | inl same ↦ elim (Result-cases (validate_receipt tx c' d')) [
        | inr (failure, e) ↦ absurd (ground (arith, h))
        | inl (done, e) ↦ (
          validate_receipt-Repeats tx c' d' (ground arith) e,
          validate_receipts-Repeated txs cs ds (omega arith) (omega arith) (ground (arith, h)),
        )
      ]
    ]

Repeated-valid :
    (txs : List ComputeTx) (cs ds : List Receipt)
    → Repeated txs cs ds
    → (validate_receipts txs cs ds ≡ ok tt) × (length ds ≡ length txs)
unfolding validate_receipts
Repeated-valid [] [] [] h = (refl, refl)
Repeated-valid [] (c ∷ cs) ds h = absurd h
Repeated-valid [] [] (d ∷ ds) h = absurd h
Repeated-valid (tx ∷ txs) [] ds h = absurd h
Repeated-valid (tx ∷ txs) (c ∷ cs) [] h = absurd h
Repeated-valid (tx ∷ txs) (c ∷ cs) (d ∷ ds) h =
    let (rest, n) = Repeated-valid txs cs ds h.1 in
    let here = Repeats-valid tx c d h.0 in let id = h.0.tx_id in (ground arith, omega arith)

module _ {V T M P : Type 0} (lib : Libraries V T M P) (env : Environment) where
  -- The receipts that the executor computes for a block.
  abbrev pub computed_receipts : BlockHeader → BlockBody → StateExecutor V → List Receipt
  computed_receipts h body x =
      (execute_txs lib env (h.base_fee_per_gas % 2 ^ 64) h.timestamp body.transactions 0 [] x).0.0

  -- A block is accepted exactly where its body declares, in order, a receipt for each transaction that
  -- names it and has the status, the gas, the outputs and the error that the execution computes.
  pub execute_block_iff :
      (h : BlockHeader) (body : BlockBody) (root : Hash) (x : StateExecutor V)
      → ((s : StateTransition) × ((execute_block lib env h (some body) root x).0 ≡ ok s))
        ↔ (Repeated body.transactions (computed_receipts h body x) body.receipts)
  unfolding execute_block
  execute_block_iff h body root x =
      let receipted =
        execute_txs-Receipted lib env (h.base_fee_per_gas % 2 ^ 64) h.timestamp body.transactions 0
          [] x in
      let n = length-Receipted body.transactions (computed_receipts h body x) receipted in
      (
        λ (s, accepted). elim (Bool-cases (length body.transactions == length body.receipts)) [
          | inr odd ↦ absurd (ground (arith, accepted))
          | inl even ↦
              elim (Result-cases
                (validate_receipts body.transactions (computed_receipts h body x) body.receipts)) [
                  | inr (failure, bad) ↦ absurd (ground (arith, accepted))
                  | inl (done, valid) ↦
                      validate_receipts-Repeated body.transactions (computed_receipts h body x)
                        body.receipts n (ground arith) valid
                ]
        ],
        λ repeated.
            let (valid, m) =
              Repeated-valid body.transactions (computed_receipts h body x) body.receipts
                repeated in
            (
              record {
                from_root = root;
                to_root = (execute_block lib env h (some body) root x).1.state_db.state_root;
              },
              ground arith,
            ),
      )
