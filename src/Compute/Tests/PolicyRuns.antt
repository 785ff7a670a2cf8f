-- ===== src/Compute/Tests/PolicyRuns.antt =====
-- Runs of the two policies.
use rabbit_chain_node.Prelude.{ℕ, ◌+◌, ◌≤◌, ◌≡◌, refl, true, [], ◌∷◌, none, some, list_eq}
use rabbit_chain_node.Compute.Types.{
  Hash, Bytes, Ownership, SignatureScheme, TxSignature, ObjectOutput, ComputeTx, ok,
}
use rabbit_chain_node.Compute.Policy.Resources.{check_resources, native_asset_id}
use rabbit_chain_node.Compute.Policy.Supply.{supply, no_inflation}
use rabbit_chain_node.Compute.Policy.LockScript.{evaluate_lock_script}
use rabbit_chain_node.Compute.Policy.Authorization.{
  Crypto, from_be_bytes, expected_tx_id, has_consistent_tx_id, address_from_ed25519_public_key,
  ed25519_signature_matches_address_owner, require_owner_addresses, require_owner_signature,
  require_owner_signatures, evaluate_locks, authorize,
}
use rabbit_chain_node.Compute.Policy.Authorization.Guarantees.{Authorized, authorize-Authorized}
use rabbit_chain_node.Compute.Tests.Samples.{
  coin, executor, encoders, backends, payment, report, after, paid, opened,
}

balanced : check_resources payment (coin 1 1 100 ∷ []) [] ≡ ok tt
unfolding opened
balanced = refl

no_inflation_example :
    ((a : Hash) → supply a after.store ≤ supply a executor.store)
    × (supply native_asset_id after.store + 10 + 0 ≤ supply native_asset_id executor.store)
no_inflation_example =
    no_inflation encoders backends 100 payment executor after report refl refl paid

-- The number 5 in 32 bytes.
abbrev five : Bytes
five =
    0 ∷ 0 ∷ 0 ∷ 0 ∷ 0 ∷ 0 ∷ 0 ∷ 0 ∷ 0 ∷ 0 ∷ 0 ∷ 0 ∷ 0 ∷ 0 ∷ 0 ∷ 0 ∷ 0 ∷ 0 ∷ 0 ∷ 0 ∷ 0 ∷ 0 ∷ 0 ∷ 0
    ∷ 0 ∷ 0 ∷ 0 ∷ 0 ∷ 0 ∷ 0 ∷ 0 ∷ 5 ∷ []

-- Everything hashes to 5, and a signature verifies where it is the single byte 1.
abbrev crypto : Crypto
crypto = record {
  keccak256 = λ b. five;
  is_key = λ pk. true;
  is_signature = λ b. true;
  verify = λ pk m s. list_eq s (1 ∷ []);
  decode_hex = λ b. none;
}

abbrev owned : ObjectOutput
owned = record (coin 1 1 100) { owner = Ownership.address 5 }

abbrev signature : ℕ → TxSignature
signature byte = record {
  scheme = SignatureScheme.ed25519;
  bytes = byte ∷ [];
  public_key = some five;
}

abbrev signed : ComputeTx
signed = record payment {
  tx_id = 5;
  witness = record { signatures = signature 2 ∷ signature 1 ∷ []; threshold = some 2 };
}

authorized : authorize crypto signed (owned ∷ []) [] ≡ ok tt
unfolding authorize has_consistent_tx_id expected_tx_id from_be_bytes require_owner_addresses
    require_owner_signatures require_owner_signature ed25519_signature_matches_address_owner
    address_from_ed25519_public_key evaluate_locks evaluate_lock_script list_eq
authorized = refl

authorize-Authorized_example : Authorized crypto signed (owned ∷ [])
authorize-Authorized_example = authorize-Authorized crypto signed (owned ∷ []) [] authorized
