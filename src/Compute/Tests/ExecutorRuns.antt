-- ===== src/Compute/Tests/ExecutorRuns.antt =====
-- Runs of the validator and of the executor.
use rabbit_chain_node.Prelude.{
  ℕ, ◌≡◌, ◌≢◌, ◌==◌, if◌then◌else◌, true, some, refl, List, [], ◌∷◌, arith, list_eq,
}
use rabbit_chain_node.Compute.Types.{
  Hash, ObjectOutput, ComputeTx, ok, err, invalid_operation, Reason,
}
use rabbit_chain_node.Compute.Store.{get_output, set_spent}
use rabbit_chain_node.Compute.Tx.Preimage.{signing_preimage, as_bytes}
use rabbit_chain_node.Compute.Tx.Preimage.Binding.{
  signed_body, BodyFits, signing_preimage-injective,
}
use rabbit_chain_node.Compute.Validate.{validate}
use rabbit_chain_node.Compute.Validate.Sound.{Accepted, validate-Accepted}
use rabbit_chain_node.Compute.Executor.{execute, register_replay_nonce, Registry}
use rabbit_chain_node.Compute.Executor.Commit.{IsSpent}
use rabbit_chain_node.Compute.Executor.Effects.{Effect, execute-Effect}
use rabbit_chain_node.Compute.Executor.History.{run, no_double_spend}
use rabbit_chain_node.Compute.Executor.Replay.{replay_refused}
use rabbit_chain_node.Compute.Executor.Partial.{repeated_input_burns}
use rabbit_chain_node.Compute.Tests.Samples.{
  coin, change, transfer, store, executor, encoders, backends, payment, report, after, paid, opened,
}

validate-Accepted_example : Accepted backends store payment report
validate-Accepted_example = validate-Accepted backends store payment report accepted
  where
    accepted : validate backends store payment ≡ ok report
    accepted = unfold opened in refl

execute-Effect_example : Effect payment store after.store
execute-Effect_example = execute-Effect encoders backends 100 payment executor after report paid

-- A second payment from the same output, two attempts later.
abbrev second : ComputeTx
second = transfer (1 ∷ []) (change 4 1 80 ∷ [])

no_double_spend_example :
    (execute encoders backends 900 second
      (run encoders backends ((200, second) ∷ (300, payment) ∷ []) after)).0
    ≢ ok report
no_double_spend_example =
    no_double_spend encoders backends 100 900 payment second executor after report report
      ((200, second) ∷ (300, payment) ∷ []) 1 paid refl refl

-- Another transfer with the same nonce, from another input.
abbrev reused : ComputeTx
reused = transfer (2 ∷ []) (change 4 2 20 ∷ [])

abbrev anonymous : List ℕ
anonymous = b'a' ∷ b'n' ∷ b'o' ∷ b'n' ∷ b'y' ∷ b'm' ∷ b'o' ∷ b'u' ∷ b's' ∷ []

replay_refused_example :
    (execute encoders backends 3700 reused (run encoders backends ((200, second) ∷ []) after)).0
    ≢ ok (record { inputs = coin 2 1 30 ∷ []; reads = [] })
unfolding opened list_eq
replay_refused_example =
    replay_refused encoders backends 100 3700 4 payment reused executor after report
      (record { inputs = coin 2 1 30 ∷ []; reads = [] }) ((200, second) ∷ []) anonymous paid
      (record { first = refl; second = refl; domain = refl; chain = refl; network = refl }) refl
      refl (omega arith) (omega arith)

-- The same output named twice.
abbrev twice : ComputeTx
twice = transfer (1 ∷ 1 ∷ []) (change 3 1 190 ∷ [])

twice_registry :
    (registry : Registry) × (register_replay_nonce encoders 100 twice [] ≡ (ok tt, registry))
unfolding opened
twice_registry = ((register_replay_nonce encoders 100 twice []).1, refl)

twice_valid :
    validate backends store twice
    ≡ ok (record { inputs = coin 1 1 100 ∷ coin 1 1 100 ∷ []; reads = [] })
unfolding opened
twice_valid = refl

repeated_input_burns_example :
    ((execute encoders backends 100 twice executor).0 ≡ err (invalid_operation Reason.double_spend))
    × IsSpent 1 (execute encoders backends 100 twice executor).1.store
    × ((o : ObjectOutput) × (get_output 1 store ≡ some o)
        × ((j : Hash)
            → get_output j (execute encoders backends 100 twice executor).1.store
              ≡ (if 1 == j then some (set_spent true o) else get_output j store)))
repeated_input_burns_example =
    repeated_input_burns encoders backends 100 twice executor
      (record { inputs = coin 1 1 100 ∷ coin 1 1 100 ∷ []; reads = [] }) twice_registry.0 1 [] refl
      twice_valid twice_registry.1

-- The same body under another identifier.
abbrev renamed : ComputeTx
renamed = record payment { tx_id = 100 }

payment_fits : BodyFits (signed_body payment)
unfolding as_bytes
payment_fits = omega arith

signing_preimage-injective_example : signed_body payment ≡ signed_body renamed
unfolding signing_preimage
signing_preimage-injective_example =
    signing_preimage-injective payment renamed payment_fits payment_fits refl
