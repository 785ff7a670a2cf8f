-- ===== src/Compute/Tx/Preimage.antt =====
-- The bytes that a witness signs: `signing_preimage` and the encoders that it calls (compute/tx.rs).
-- Each encoder returns the bytes that the source appends to its buffer.
pub mod Codes
pub mod Values
pub mod Proposals
pub mod Binding
use rabbit_chain_node.Prelude.{
  ℕ, zero, suc, ◌+◌, ◌-◌, ◌*◌, ◌/◌, ◌%◌, ◌^◌, List, [], ◌∷◌, ◌++◌, Option, none, some, length, ltb,
  if◌then◌else◌, unwrap_or,
}
use rabbit_chain_node.Compute.Types.{
  Hash, Bytes, Text, Script, ResourceValue, ResourceMap, Ownership, ObjectKind, Metadata, Command,
  ObjectReadRef, OutputProposal, ComputeTx,
}

-- `to_be_bytes` of a word of `n` bytes
unfoldable pub to_be_bytes : ℕ → ℕ → Bytes
to_be_bytes zero v = []
to_be_bytes (suc n) v = to_be_bytes n (v / 256) ++ (v % 256) ∷ []

-- The UTF-8 bytes of a text (`str::as_bytes`).
unfoldable pub utf8 : ℕ → Bytes
utf8 c =
    if ltb c 0x80
    then c ∷ []
    else (if ltb c 0x800
        then (0xc0 + c / 64) ∷ (0x80 + c % 64) ∷ []
        else (if ltb c 0x1_0000
            then (0xe0 + c / 4096) ∷ (0x80 + c / 64 % 64) ∷ (0x80 + c % 64) ∷ []
            else (0xf0 + c / 0x4_0000)
              ∷ (0x80 + c / 4096 % 64)
              ∷ (0x80 + c / 64 % 64)
              ∷ (0x80 + c % 64)
              ∷ []))

unfoldable pub as_bytes : Text → Bytes
as_bytes [] = []
as_bytes (c ∷ t) = utf8 c ++ as_bytes t

-- `RABBITCHAIN_COMPUTE_SIGNING_DOMAIN_V1`, the ASCII text RABBITCHAIN-COMPUTE-SIGNING-V1
abbrev pub signing_domain : Bytes
signing_domain =
    82 ∷ 65 ∷ 66 ∷ 66 ∷ 73 ∷ 84 ∷ 67 ∷ 72 ∷ 65 ∷ 73 ∷ 78 ∷ 45 ∷ 67 ∷ 79 ∷ 77 ∷ 80 ∷ 85 ∷ 84 ∷ 69
    ∷ 45 ∷ 83 ∷ 73 ∷ 71 ∷ 78 ∷ 73 ∷ 78 ∷ 71 ∷ 45 ∷ 86 ∷ 49 ∷ []

unfoldable pub command_tag : Command → ℕ
command_tag Command.transfer = 1
command_tag Command.invoke = 2
command_tag Command.mint = 3
command_tag Command.burn = 4
command_tag Command.anchor = 5
command_tag Command.reveal = 6
command_tag Command.agent_tick = 7

unfoldable pub object_kind_tag : ObjectKind → ℕ
object_kind_tag ObjectKind.asset = 1
object_kind_tag ObjectKind.code = 2
object_kind_tag ObjectKind.state = 3
object_kind_tag ObjectKind.capability = 4
object_kind_tag ObjectKind.agent = 5
object_kind_tag ObjectKind.anchor = 6
object_kind_tag ObjectKind.ticket = 7

-- `(len as u32).to_be_bytes()`
unfoldable pub encode_len : ℕ → Bytes
encode_len len = to_be_bytes 4 (len % 2 ^ 32)

unfoldable pub encode_bytes : Bytes → Bytes
encode_bytes bytes = encode_len (length bytes) ++ bytes

-- The items of a list, one after the other.
abbrev pub concat_map {ℓ} : {A : Type ℓ} → (A → Bytes) → List A → Bytes
concat_map f [] = []
concat_map f (x ∷ xs) = f x ++ concat_map f xs

-- The marker byte and the value of an optional field.
abbrev pub encode_option {ℓ} : {A : Type ℓ} → (A → Bytes) → Option A → Bytes
encode_option f none = 0 ∷ []
encode_option f (some a) = 1 ∷ f a

unfoldable pub encode_output_ids : List Hash → Bytes
encode_output_ids ids = encode_len (length ids) ++ concat_map (to_be_bytes 32) ids

abbrev pub encode_read_ref : ObjectReadRef → Bytes
encode_read_ref rr =
    to_be_bytes 32 rr.output_id ++ (to_be_bytes 4 rr.domain_id ++ to_be_bytes 8 rr.expected_version)

unfoldable pub encode_read_set : List ObjectReadRef → Bytes
encode_read_set reads = encode_len (length reads) ++ concat_map encode_read_ref reads

unfoldable pub encode_script : Script → Bytes
encode_script script = script.vm ∷ encode_bytes script.code

abbrev pub encode_value : ResourceValue → Bytes
encode_value (ResourceValue.amount v) = 1 ∷ to_be_bytes 16 v
encode_value (ResourceValue.blob bytes) = 2 ∷ encode_bytes bytes
encode_value (ResourceValue.ref object) = 3 ∷ to_be_bytes 32 object
encode_value (ResourceValue.ref_batch objects) =
    4 ∷ (encode_len (length objects) ++ concat_map (to_be_bytes 32) objects)

abbrev pub encode_resource : Hash × ResourceValue → Bytes
encode_resource (asset, value) = to_be_bytes 32 asset ++ encode_value value

unfoldable pub encode_resource_map : ResourceMap → Bytes
encode_resource_map resources =
    encode_len (length resources) ++ concat_map encode_resource resources

abbrev pub encode_entry : Text × Bytes → Bytes
encode_entry (key, value) = encode_bytes (as_bytes key) ++ encode_bytes value

unfoldable pub encode_metadata : Metadata → Bytes
encode_metadata metadata = encode_len (length metadata) ++ concat_map encode_entry metadata

unfoldable pub encode_ownership : Ownership → Bytes
encode_ownership (Ownership.address a) = 1 ∷ to_be_bytes 20 a
encode_ownership (Ownership.program a) = 2 ∷ to_be_bytes 20 a
encode_ownership Ownership.shared = 3 ∷ []
encode_ownership (Ownership.ed25519 key) = 4 ∷ to_be_bytes 32 key

-- The body of the loop of `encode_output_proposals`.
unfoldable pub encode_proposal : OutputProposal → Bytes
encode_proposal p =
    to_be_bytes 32 p.output_id
    ++ (to_be_bytes 32 p.object_id
        ++ (to_be_bytes 4 p.domain_id
            ++ (object_kind_tag p.kind
                ∷ (encode_ownership p.owner
                    ++ (encode_option (to_be_bytes 32) p.predecessor
                        ++ (to_be_bytes 8 p.version
                            ++ (encode_bytes p.state
                                ++ (encode_option (to_be_bytes 32) p.state_root
                                    ++ (encode_resource_map p.resources
                                        ++ (encode_script p.lock
                                            ++ (encode_option encode_script p.logic
                                                ++ (to_be_bytes 8 p.created_at
                                                    ++ (encode_option (to_be_bytes 8) p.ttl
                                                        ++ (encode_option (to_be_bytes 16)
                                                            p.rent_reserve
                                                            ++ (to_be_bytes 4 p.flags
                                                            ++ encode_metadata
                                                            p.extensions)))))))))))))))

unfoldable pub encode_output_proposals : List OutputProposal → Bytes
encode_output_proposals proposals =
    encode_len (length proposals) ++ concat_map encode_proposal proposals

unfoldable pub signing_preimage : ComputeTx → Bytes
signing_preimage tx =
    signing_domain
    ++ (to_be_bytes 4 tx.domain_id
        ++ (command_tag tx.command
            ∷ (encode_output_ids tx.input_set
                ++ (encode_read_set tx.read_set
                    ++ (encode_output_proposals tx.output_proposals
                        ++ (to_be_bytes 8 tx.fee
                            ++ (encode_option (to_be_bytes 8) tx.nonce
                                ++ (encode_metadata tx.metadata
                                    ++ (encode_bytes tx.payload
                                        ++ (encode_option (to_be_bytes 8) tx.deadline_unix_secs
                                            ++ (encode_option (to_be_bytes 8) tx.chain_id
                                                ++ (encode_option (to_be_bytes 4) tx.network_id
                                                    ++ (to_be_bytes 2
                                                          (unwrap_or tx.witness.threshold 1)
                                                        ++ (1
                                                            ∷ (to_be_bytes 8 tx.max_fee
                                                            ++ (to_be_bytes 8 tx.priority_fee
                                                            ++ to_be_bytes 8
                                                            tx.gas_limit))))))))))))))))
