-- ===== src/Compute/Types.antt =====
-- The data of the compute subsystem: primitives.rs, object.rs, the records of tx.rs, error.rs.
-- A 32-byte hash, a 20-byte address and a public key are the number that their bytes spell; the
-- program only compares and orders them. A `String` is the list of its code points, and a
-- `Vec<u8>` the list of its bytes.
use rabbit_chain_node.Prelude.{ℕ, Bool, true, false, not, List, Option}

-- `DomainId`, `ObjectId`, `OutputId`, `TxId`, `Version` and `AssetId` wrap a number each.
abbrev pub Hash : Type 0
Hash = ℕ

abbrev pub Address : Type 0
Address = ℕ

abbrev pub Bytes : Type 0
Bytes = List ℕ

abbrev pub Text : Type 0
Text = List ℕ

pub data ResourceValue : Type 0 where
  amount : ℕ → ResourceValue
  blob : Bytes → ResourceValue
  ref : Hash → ResourceValue
  ref_batch : List Hash → ResourceValue

abbrev pub ResourceMap : Type 0
ResourceMap = List (Hash × ResourceValue)

pub record Script : Type 0 where
  pub vm : ℕ
  pub code : Bytes

pub data Ownership : Type 0 where
  address : Address → Ownership
  program : Address → Ownership
  shared : Ownership
  ed25519 : ℕ → Ownership

pub data ObjectKind : Type 0 where
  asset code state capability agent anchor ticket : ObjectKind

abbrev pub Metadata : Type 0
Metadata = List (Text × Bytes)

pub record ObjectOutput : Type 0 where
  pub output_id : Hash
  pub object_id : Hash
  pub version : ℕ
  pub domain_id : ℕ
  pub kind : ObjectKind
  pub owner : Ownership
  pub predecessor : Option Hash
  pub state : Bytes
  pub state_root : Option Hash
  pub resources : ResourceMap
  pub lock : Script
  pub logic : Option Script
  pub created_at : ℕ
  pub ttl : Option ℕ
  pub rent_reserve : Option ℕ
  pub flags : ℕ
  pub extensions : Metadata
  pub spent : Bool

-- `ObjectOutput::is_live`
unfoldable pub is_live : ObjectOutput → Bool
is_live o = not o.spent

pub record ObjectReadRef : Type 0 where
  pub output_id : Hash
  pub domain_id : ℕ
  pub expected_version : ℕ

pub record OutputProposal : Type 0 where
  pub output_id : Hash
  pub object_id : Hash
  pub domain_id : ℕ
  pub kind : ObjectKind
  pub owner : Ownership
  pub predecessor : Option Hash
  pub version : ℕ
  pub state : Bytes
  pub state_root : Option Hash
  pub resources : ResourceMap
  pub lock : Script
  pub logic : Option Script
  pub created_at : ℕ
  pub ttl : Option ℕ
  pub rent_reserve : Option ℕ
  pub flags : ℕ
  pub extensions : Metadata

pub data Command : Type 0 where
  transfer invoke mint burn anchor reveal agent_tick : Command

-- The scheme of a signature is `SignatureScheme::Ed25519`, the only one that the source has.
pub data SignatureScheme : Type 0 where
  ed25519 : SignatureScheme

pub record TxSignature : Type 0 where
  pub scheme : SignatureScheme
  pub bytes : Bytes
  pub public_key : Option Bytes

pub record TxWitness : Type 0 where
  pub signatures : List TxSignature
  pub threshold : Option ℕ

pub record ComputeTx : Type 0 where
  pub tx_id : Hash
  pub domain_id : ℕ
  pub command : Command
  pub input_set : List Hash
  pub read_set : List ObjectReadRef
  pub output_proposals : List OutputProposal
  pub fee : ℕ
  pub nonce : Option ℕ
  pub metadata : Metadata
  pub payload : Bytes
  pub deadline_unix_secs : Option ℕ
  pub chain_id : Option ℕ
  pub network_id : Option ℕ
  pub witness : TxWitness
  pub max_fee : ℕ
  pub priority_fee : ℕ
  pub gas_limit : ℕ

-- The word that a check on the life of an object puts into its text.
pub data LifecycleSource : Type 0 where
  from_input from_read from_proposal : LifecycleSource

-- The texts of `InvalidOperation`, each with what the source formats into it. The text of the crate hex is
-- a function of the bytes that it could not decode.
pub data Reason : Type 0 where
  failed_sanity_check input_already_spent double_spend : Reason
  zero_nonce nonce_required mint_with_fee : Reason
  too_many_metadata_entries metadata_key_too_long metadata_value_too_large : ℕ → Reason
  empty_metadata_key : Reason
  duplicate_metadata_key : Text → Reason
  replay_nonce_used : Reason
  zero_rent ttl_not_after_creation : LifecycleSource → Reason
  deadline_required proposal_deadline_required : Reason
  object_expired : LifecycleSource → ℕ → ℕ → Reason
  proposal_expired ttl_without_rent : Reason
  unknown_flags : LifecycleSource → ℕ → Reason
  agent_flag_kind channel_flag_kind : LifecycleSource → Reason
  created_before_predecessor frozen_predecessor : Reason
  unsupported_lock_vm : ℕ → Reason
  lock_not_utf8 : Reason
  invalid_payload_hex unsupported_lock_expression : Bytes → Reason

pub data ComputeError : Type 0 where
  object_not_found : Hash → ComputeError
  domain_mismatch : ℕ → ℕ → ComputeError
  domain_not_registered : ℕ → ComputeError
  domain_not_public : ℕ → ComputeError
  invalid_object_kind read_set_validation_failed : ComputeError
  read_version_mismatch : ℕ → ℕ → ComputeError
  ownership_check_failed authorization_denied invalid_signature tx_id_mismatch : ComputeError
  signature_owner_mismatch unsupported_signature_scheme : ComputeError
  resource_policy_violation duplicate_output_id invalid_predecessor : ComputeError
  invalid_version_progression : ComputeError
  invalid_operation : Reason → ComputeError

pub data ComputeResult {ℓ} (A : Type ℓ) : Type ℓ where
  ok : A → ComputeResult A
  err : ComputeError → ComputeResult A

-- The `?` operator.
infixl 5 ◌>>=◌ ◌>>◌
abbrev pub ◌>>=◌ {ℓ κ} :
    {X : Type ℓ} {Y : Type κ} → ComputeResult X → (X → ComputeResult Y) → ComputeResult Y
ok x >>= rest = rest x
err refusal >>= rest = err refusal

abbrev pub ◌>>◌ {ℓ} : {B : Type ℓ} → ComputeResult (Unit {0}) → ComputeResult B → ComputeResult B
m >> k = m >>= λ _. k

-- `if c { return Err(e); }`
abbrev pub reject_if : Bool → ComputeError → ComputeResult (Unit {0})
reject_if true e = err e
reject_if false e = ok tt

-- `let Some(a) = o else { return Err(e); }`
abbrev pub ok_or {ℓ} : {A : Type ℓ} → Option A → ComputeError → ComputeResult A
ok_or o e = elim o [ Option.none ↦ err e | Option.some a ↦ ok a ]
