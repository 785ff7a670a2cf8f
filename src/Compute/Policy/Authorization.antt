-- ===== src/Compute/Policy/Authorization.antt =====
-- `DefaultAuthorizationPolicy` (compute/policy.rs). The hash function, the crate ed25519_dalek and the
-- crate hex are parameters.
pub mod Guarantees
use rabbit_chain_node.Prelude.{
  ℕ, ◌+◌, ◌*◌, zero, suc, Bool, true, false, not, ◌&&◌, ◌||◌, List, [], ◌∷◌, ◌++◌, Option, none,
  some, ltb, leb, ◌==◌, if◌then◌else◌, is_empty, list_eq, length, unwrap_or,
}
use rabbit_chain_node.Compute.Types.{
  Hash, Bytes, Address, Ownership, Command, ObjectOutput, ComputeTx, TxSignature, ComputeError,
  authorization_denied, invalid_signature, tx_id_mismatch, signature_owner_mismatch,
  ownership_check_failed, ComputeResult, ok, err, ◌>>=◌, ◌>>◌, reject_if,
}
use rabbit_chain_node.Compute.Tx.{is_mint, is_burn, is_invoke}
use rabbit_chain_node.Compute.Tx.Preimage.{signing_preimage, to_be_bytes}
use rabbit_chain_node.Compute.Policy.LockScript.{evaluate_lock_script}

-- `is_key` is `VerifyingKey::from_bytes(..).is_ok()`, `is_signature` is
-- `Signature::from_slice(..).is_ok()`, and `verify` is `verify(..).is_ok()` on the key, the message and
-- the signature.
pub record Crypto : Type 0 where
  pub keccak256 : Bytes → Bytes
  pub is_key : Bytes → Bool
  pub is_signature : Bytes → Bool
  pub verify : Bytes → Bytes → Bytes → Bool
  pub decode_hex : Bytes → Option Bytes

-- The number that bytes spell, most significant first.
unfoldable pub from_be_bytes : ℕ → Bytes → ℕ
from_be_bytes acc [] = acc
from_be_bytes acc (b ∷ bs) = from_be_bytes (acc * 256 + b) bs

abbrev pub drop {ℓ} : {A : Type ℓ} → ℕ → List A → List A
drop zero xs = xs
drop (suc n) [] = []
drop (suc n) (x ∷ xs) = drop n xs

module _ (c : Crypto) where
  -- `ComputeTx::expected_tx_id` and `has_consistent_tx_id` (compute/tx.rs)
  unfoldable pub expected_tx_id : ComputeTx → Hash
  expected_tx_id tx = from_be_bytes 0 (c.keccak256 (signing_preimage tx))

  unfoldable pub has_consistent_tx_id : ComputeTx → Bool
  has_consistent_tx_id tx = tx.tx_id == expected_tx_id tx

  -- `hash[12..]`, on a public key whose length has been checked
  unfoldable pub address_from_ed25519_public_key : Bytes → Address
  address_from_ed25519_public_key pk = from_be_bytes 0 (drop 12 (c.keccak256 pk))

  unfoldable pub ed25519_signature_matches_address_owner :
      ComputeTx → Address → List TxSignature → ComputeResult Bool
  ed25519_signature_matches_address_owner tx owner [] = ok false
  ed25519_signature_matches_address_owner tx owner (sig ∷ sigs) =
      let rest = ed25519_signature_matches_address_owner tx owner sigs in
      elim sig.public_key [
        | none ↦ err invalid_signature
        | some pk ↦
            if not (length pk == 32)
            then err invalid_signature
            else (if not (address_from_ed25519_public_key pk == owner)
                then rest
                else (if not (c.is_key pk)
                    then err invalid_signature
                    else (if not (c.is_signature sig.bytes)
                        then err invalid_signature
                        else (if c.verify pk (signing_preimage tx) sig.bytes
                            then ok true
                            else rest))))
      ]

  abbrev matches_key : ComputeTx → Bytes → List TxSignature → ComputeResult Bool
  matches_key tx owner [] = ok false
  matches_key tx owner (sig ∷ sigs) =
      let rest = matches_key tx owner sigs in
      elim sig.public_key [
        | none ↦ err invalid_signature
        | some pk ↦
            if not (length pk == 32)
            then err invalid_signature
            else (if not (list_eq pk owner)
                then rest
                else (if not (c.is_signature sig.bytes)
                    then err invalid_signature
                    else (if c.verify owner (signing_preimage tx) sig.bytes
                        then ok true
                        else rest)))
      ]

  unfoldable pub ed25519_signature_matches_owner :
      ComputeTx → Bytes → List TxSignature → ComputeResult Bool
  ed25519_signature_matches_owner tx owner sigs =
      if not (c.is_key owner) then err ownership_check_failed else matches_key tx owner sigs

  -- Only programs and shared objects take part in `Mint` and `Burn`.
  unfoldable pub require_program_owners : List ObjectOutput → ComputeResult (Unit {0})
  require_program_owners [] = ok tt
  require_program_owners (o ∷ os) = elim o.owner [
    | Ownership.program _ ↦ require_program_owners os
    | Ownership.shared ↦ require_program_owners os
    | _ ↦ err authorization_denied
  ]

  unfoldable pub require_owner_addresses : List ObjectOutput → ComputeResult (Unit {0})
  require_owner_addresses [] = ok tt
  require_owner_addresses (o ∷ os) =
      let rest = require_owner_addresses os in
      elim o.owner [
        | Ownership.address a ↦ if a == 0 then err ownership_check_failed else rest
        | _ ↦ rest
      ]

  abbrev accept_match : ComputeResult Bool → ComputeResult (Unit {0})
  accept_match (ok true) = ok tt
  accept_match (ok false) = err signature_owner_mismatch
  accept_match (err e) = err e

  unfoldable pub require_owner_signature : ComputeTx → ObjectOutput → ComputeResult (Unit {0})
  require_owner_signature tx o = elim o.owner [
    | Ownership.address a ↦
        reject_if (is_empty tx.witness.signatures) authorization_denied
        >> accept_match (ed25519_signature_matches_address_owner tx a tx.witness.signatures)
    | Ownership.ed25519 key ↦
        reject_if (is_empty tx.witness.signatures) authorization_denied
        >> accept_match
            (ed25519_signature_matches_owner tx (to_be_bytes 32 key) tx.witness.signatures)
    | _ ↦ ok tt
  ]

  unfoldable pub require_owner_signatures : ComputeTx → List ObjectOutput → ComputeResult (Unit {0})
  require_owner_signatures tx [] = ok tt
  require_owner_signatures tx (o ∷ os) =
      require_owner_signature tx o >> require_owner_signatures tx os

  unfoldable pub evaluate_locks : ComputeTx → List ObjectOutput → ComputeResult (Unit {0})
  evaluate_locks tx [] = ok tt
  evaluate_locks tx (o ∷ os) = evaluate_lock_script c.decode_hex o.lock tx >> evaluate_locks tx os

  abbrev pub moves_value : Command → Bool
  moves_value Command.transfer = true
  moves_value Command.invoke = true
  moves_value _ = false

  unfoldable pub authorize :
      ComputeTx → List ObjectOutput → List ObjectOutput → ComputeResult (Unit {0})
  authorize tx inputs reads =
      let required = unwrap_or tx.witness.threshold 1 in
      reject_if (not (has_consistent_tx_id tx)) tx_id_mismatch
      >> reject_if (required == 0) authorization_denied
      >> reject_if (ltb (length tx.witness.signatures) required) authorization_denied
      >> (if is_mint tx.command || is_burn tx.command then require_program_owners inputs else ok tt)
      >> (if moves_value tx.command
          then require_owner_addresses inputs >> require_owner_signatures tx inputs
          else ok tt)
      >> evaluate_locks tx inputs
