-- ===== src/Compute/Validate/Envelope.antt =====
-- The checks that look at a transaction alone: `validate_tx_envelope`, `nonce_required` and
-- `validate_metadata` (compute/execution.rs).
use rabbit_chain_node.Prelude.{
  ℕ, Bool, true, false, not, ◌&&◌, ◌||◌, List, [], ◌∷◌, Option, none, some, ltb, leb, ◌==◌, length,
  is_empty, all, any, is_some, list_eq,
}
use rabbit_chain_node.Compute.Types.{
  Text, Metadata, Command, anchor, reveal, agent_tick, ComputeTx, invalid_operation, Reason,
  ComputeResult, ok, ◌>>◌, reject_if,
}
use rabbit_chain_node.Compute.Tx.{is_mint}
use rabbit_chain_node.Compute.Tx.Preimage.{as_bytes}

abbrev pub max_metadata_entries : ℕ
max_metadata_entries = 64

abbrev pub max_metadata_key_bytes : ℕ
max_metadata_key_bytes = 128

abbrev pub max_metadata_value_bytes : ℕ
max_metadata_value_bytes = 4096

-- `char::is_whitespace`: the code points with the property White_Space.
abbrev pub is_whitespace : ℕ → Bool
is_whitespace c =
    leb 9 c && leb c 13
    || c == 32
    || c == 133
    || c == 160
    || c == 5760
    || leb 8192 c && leb c 8202
    || c == 8232
    || c == 8233
    || c == 8239
    || c == 8287
    || c == 12288

-- `key.trim().is_empty()`
abbrev pub is_blank : Text → Bool
is_blank key = all is_whitespace key

-- The loop of `validate_metadata`; `keys` are the keys that it has met.
unfoldable pub validate_entries : List Text → Metadata → ComputeResult (Unit {0})
validate_entries keys [] = ok tt
validate_entries keys ((key, value) ∷ rest) =
    reject_if (is_blank key) (invalid_operation Reason.empty_metadata_key)
    >> reject_if (ltb max_metadata_key_bytes (length (as_bytes key)))
        (invalid_operation (Reason.metadata_key_too_long (length (as_bytes key))))
    >> reject_if (ltb max_metadata_value_bytes (length value))
        (invalid_operation (Reason.metadata_value_too_large (length value)))
    >> reject_if (any (list_eq key) keys) (invalid_operation (Reason.duplicate_metadata_key key))
    >> validate_entries (key ∷ keys) rest

unfoldable pub validate_metadata : Metadata → ComputeResult (Unit {0})
validate_metadata metadata =
    reject_if (ltb max_metadata_entries (length metadata))
      (invalid_operation (Reason.too_many_metadata_entries (length metadata)))
    >> validate_entries [] metadata

abbrev pub is_cross_domain : Command → Bool
is_cross_domain anchor = true
is_cross_domain reveal = true
is_cross_domain agent_tick = true
is_cross_domain _ = false

unfoldable pub nonce_required : ComputeTx → Bool
nonce_required tx = is_empty tx.input_set || is_cross_domain tx.command

abbrev pub is_some_zero : Option ℕ → Bool
is_some_zero none = false
is_some_zero (some n) = n == 0

unfoldable pub validate_tx_envelope : ComputeTx → ComputeResult (Unit {0})
unfolding nonce_required validate_metadata
validate_tx_envelope tx =
    reject_if (is_some_zero tx.nonce) (invalid_operation Reason.zero_nonce)
    >> reject_if (nonce_required tx && not (is_some tx.nonce))
        (invalid_operation Reason.nonce_required)
    >> reject_if (is_mint tx.command && not (tx.fee == 0)) (invalid_operation Reason.mint_with_fee)
    >> validate_metadata tx.metadata
