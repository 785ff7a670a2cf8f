-- ===== src/Compute/Tx/Preimage/Binding.antt =====
-- The signed bytes bind every field that the preimage covers.
use rabbit_chain_node.Prelude.{ℕ, ◌≡◌, refl, ap, List, [], ◌∷◌, ◌++◌, Option, unwrap_or}
use rabbit_chain_node.Compute.Types.{
  Hash, Bytes, Metadata, Command, ObjectReadRef, OutputProposal, ComputeTx,
}
use rabbit_chain_node.Compute.Tx.Preimage.{
  signing_domain, command_tag, to_be_bytes, encode_option, encode_output_ids, encode_read_set,
  encode_bytes, encode_metadata, encode_output_proposals, signing_preimage,
}
use rabbit_chain_node.Compute.Tx.Preimage.Codes.{
  PrefixCode, IsWord, word, ◌&◌, ◌~>◌, through, OptionFits, option, ListFits, counted, BytesFit,
  bytes, same_length_split,
}
use rabbit_chain_node.Compute.Tx.Preimage.Values.{hash, MetadataFits, metadata, command}
use rabbit_chain_node.Compute.Tx.Preimage.Proposals.{
  ReadRefFits, weaken, read_ref, ProposalFits, proposal,
}

-- What the preimage covers. The identifier and the signatures are left out, and a missing threshold
-- counts as one signature.
pub record SignedBody : Type 0 where
  pub domain_id : ℕ
  pub command : Command
  pub input_set : List Hash
  pub read_set : List ObjectReadRef
  pub output_proposals : List OutputProposal
  pub fee : ℕ
  pub nonce : Option ℕ
  pub metadata : Metadata
  pub payload : Bytes
  pub deadline_unix_secs : Option ℕ
  pub chain_id : Option ℕ
  pub network_id : Option ℕ
  pub threshold : ℕ
  pub max_fee : ℕ
  pub priority_fee : ℕ
  pub gas_limit : ℕ

abbrev pub signed_body : ComputeTx → SignedBody
signed_body tx = record {
  domain_id = tx.domain_id;
  command = tx.command;
  input_set = tx.input_set;
  read_set = tx.read_set;
  output_proposals = tx.output_proposals;
  fee = tx.fee;
  nonce = tx.nonce;
  metadata = tx.metadata;
  payload = tx.payload;
  deadline_unix_secs = tx.deadline_unix_secs;
  chain_id = tx.chain_id;
  network_id = tx.network_id;
  threshold = unwrap_or tx.witness.threshold 1;
  max_fee = tx.max_fee;
  priority_fee = tx.priority_fee;
  gas_limit = tx.gas_limit;
}

-- Every number is in the range of its type, and every length in that of `u32`.
pub record BodyFits (b : SignedBody) : Type 0 where
  pub domain_id : IsWord 4 b.domain_id
  pub input_set : ListFits (IsWord 32) b.input_set
  pub read_set : ListFits ReadRefFits b.read_set
  pub output_proposals : ListFits ProposalFits b.output_proposals
  pub fee : IsWord 8 b.fee
  pub nonce : OptionFits (IsWord 8) b.nonce
  pub metadata : MetadataFits b.metadata
  pub payload : BytesFit b.payload
  pub deadline_unix_secs : OptionFits (IsWord 8) b.deadline_unix_secs
  pub chain_id : OptionFits (IsWord 8) b.chain_id
  pub network_id : OptionFits (IsWord 4) b.network_id
  pub threshold : IsWord 2 b.threshold
  pub max_fee : IsWord 8 b.max_fee
  pub priority_fee : IsWord 8 b.priority_fee
  pub gas_limit : IsWord 8 b.gas_limit

-- The marker byte in front of the fee fields.
marker : PrefixCode (λ (u : Unit {0}). Unit {0}) (λ u. 1 ∷ [])
marker = record { split = λ a b r s v w h. (refl, cc) }

abbrev encode_body : SignedBody → Bytes
encode_body b =
    to_be_bytes 4 b.domain_id
    ++ (command_tag b.command
        ∷ (encode_output_ids b.input_set
            ++ (encode_read_set b.read_set
                ++ (encode_output_proposals b.output_proposals
                    ++ (to_be_bytes 8 b.fee
                        ++ (encode_option (to_be_bytes 8) b.nonce
                            ++ (encode_metadata b.metadata
                                ++ (encode_bytes b.payload
                                    ++ (encode_option (to_be_bytes 8) b.deadline_unix_secs
                                        ++ (encode_option (to_be_bytes 8) b.chain_id
                                            ++ (encode_option (to_be_bytes 4) b.network_id
                                                ++ (to_be_bytes 2 b.threshold
                                                    ++ (1
                                                        ∷ (to_be_bytes 8 b.max_fee
                                                            ++ (to_be_bytes 8 b.priority_fee
                                                            ++ to_be_bytes 8
                                                            b.gas_limit)))))))))))))))

body : PrefixCode BodyFits encode_body
unfolding encode_output_ids encode_read_set encode_output_proposals
body =
    weaken
      (λ b v.
        v.domain_id & tt & v.input_set & v.read_set & v.output_proposals & v.fee & v.nonce
        & v.metadata & v.payload & v.deadline_unix_secs & v.chain_id & v.network_id & v.threshold
        & tt & v.max_fee & v.priority_fee & v.gas_limit)
      (through {A = SignedBody}
        (λ b.
          b.domain_id & b.command & b.input_set & b.read_set & b.output_proposals & b.fee & b.nonce
          & b.metadata & b.payload & b.deadline_unix_secs & b.chain_id & b.network_id & b.threshold
          & tt & b.max_fee & b.priority_fee & b.gas_limit)
        (λ t.
          let u = t.1.1.1.1.1.1.1 in
          let w = u.1.1.1.1.1.1 in
          record {
            domain_id = t.0;
            command = t.1.0;
            input_set = t.1.1.0;
            read_set = t.1.1.1.0;
            output_proposals = t.1.1.1.1.0;
            fee = t.1.1.1.1.1.0;
            nonce = t.1.1.1.1.1.1.0;
            metadata = u.0;
            payload = u.1.0;
            deadline_unix_secs = u.1.1.0;
            chain_id = u.1.1.1.0;
            network_id = u.1.1.1.1.0;
            threshold = u.1.1.1.1.1.0;
            max_fee = w.1.0;
            priority_fee = w.1.1.0;
            gas_limit = w.1.1.1;
          })
        (λ b. refl)
        (word 4
          ~> command
          ~> counted hash
          ~> counted read_ref
          ~> counted proposal
          ~> word 8
          ~> option (word 8)
          ~> metadata
          ~> bytes
          ~> option (word 8)
          ~> option (word 8)
          ~> option (word 4)
          ~> word 2
          ~> marker
          ~> word 8
          ~> word 8
          ~> word 8))

-- Two transactions whose numbers are in the ranges of their types, and whose lists, byte strings and texts
-- have lengths in the range of `u32`, have the same signing preimage only if they have the same signed body:
-- they agree on every signed field.
pub signing_preimage-injective :
    (a b : ComputeTx)
    → BodyFits (signed_body a)
    → BodyFits (signed_body b)
    → signing_preimage a ≡ signing_preimage b
    → signed_body a ≡ signed_body b
unfolding signing_preimage
signing_preimage-injective a b v w h =
    let same : encode_body (signed_body a) ≡ encode_body (signed_body b) =
      (same_length_split signing_domain signing_domain (encode_body (signed_body a))
        (encode_body (signed_body b)) refl h).1 in
    (body.split (signed_body a) (signed_body b) [] [] v w (ap (λ t. t ++ []) same)).0
