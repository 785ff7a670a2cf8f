-- ===== src/Compute/Validate.antt =====
-- `BasicTxValidator` (compute/execution.rs), over the in-memory object store.
pub mod Envelope
pub mod Lifecycle
pub mod Alive
pub mod Sound
use rabbit_chain_node.Prelude.{
  ℕ, ◌+◌, Bool, true, false, not, List, [], ◌∷◌, Option, none, some, ltb, ◌==◌, if◌then◌else◌, find,
  sat_add_u64,
}
use rabbit_chain_node.Compute.Types.{
  Hash, Text, ObjectOutput, ObjectReadRef, OutputProposal, ComputeTx, ComputeError,
  object_not_found, domain_mismatch, domain_not_registered, domain_not_public,
  read_version_mismatch, invalid_predecessor, invalid_version_progression, invalid_operation,
  LifecycleSource, Reason, ComputeResult, ok, err, ◌>>=◌, ◌>>◌, reject_if, ok_or,
}
use rabbit_chain_node.Compute.Store.{ObjectStore, get_output}
use rabbit_chain_node.Compute.Tx.{basic_sanity_check}
use rabbit_chain_node.Compute.Validate.Envelope.{validate_tx_envelope}
use rabbit_chain_node.Compute.Validate.Lifecycle.{
  has_flag, flag_frozen, validate_existing_output_lifecycle, validate_proposal_lifecycle,
}

-- `DomainConfig` (compute/domain.rs)
pub record DomainConfig : Type 0 where
  pub domain_id : ℕ
  pub name : Text
  pub vm : Text
  pub public : Bool

-- The policies and the registry that the validator is generic in.
pub record Backends : Type 0 where
  pub authorize : ComputeTx → List ObjectOutput → List ObjectOutput → ComputeResult (Unit {0})
  pub check_resources : ComputeTx → List ObjectOutput → List ObjectOutput → ComputeResult (Unit {0})
  pub get_domain : ℕ → Option DomainConfig

pub record ValidationReport : Type 0 where
  pub inputs : List ObjectOutput
  pub reads : List ObjectOutput

module _ (tx : ComputeTx) (s : ObjectStore) where
  unfoldable pub validate_input : Hash → ComputeResult ObjectOutput
  validate_input id = ok_or (get_output id s) (object_not_found id) >>= λ output.
      reject_if output.spent (invalid_operation Reason.input_already_spent)
      >> reject_if (not (output.domain_id == tx.domain_id))
          (domain_mismatch tx.domain_id output.domain_id)
      >> validate_existing_output_lifecycle output tx LifecycleSource.from_input
      >> ok output

  unfoldable pub validate_inputs : List Hash → ComputeResult (List ObjectOutput)
  validate_inputs [] = ok []
  validate_inputs (id ∷ ids) =
      validate_input id >>= λ output. validate_inputs ids >>= λ outputs. ok (output ∷ outputs)

  unfoldable pub validate_read : ObjectReadRef → ComputeResult ObjectOutput
  validate_read rr = ok_or (get_output rr.output_id s) (object_not_found rr.output_id) >>= λ output.
      reject_if (not (output.domain_id == rr.domain_id))
        (domain_mismatch rr.domain_id output.domain_id)
      >> reject_if (not (output.version == rr.expected_version))
          (read_version_mismatch rr.expected_version output.version)
      >> validate_existing_output_lifecycle output tx LifecycleSource.from_read
      >> ok output

  unfoldable pub validate_reads : List ObjectReadRef → ComputeResult (List ObjectOutput)
  validate_reads [] = ok []
  validate_reads (rr ∷ rrs) =
      validate_read rr >>= λ output. validate_reads rrs >>= λ outputs. ok (output ∷ outputs)

-- The `match proposal.predecessor` of `validate_output_proposals`.
unfoldable pub validate_lineage : OutputProposal → List ObjectOutput → ComputeResult (Unit {0})
validate_lineage proposal inputs = elim proposal.predecessor [
  | none ↦ reject_if (not (proposal.version == 1)) invalid_version_progression
  | some pred_id ↦
      ok_or (find (λ o. o.output_id == pred_id) inputs) invalid_predecessor >>= λ parent.
      reject_if (not (parent.object_id == proposal.object_id)) invalid_predecessor
      >> reject_if (not (proposal.version == sat_add_u64 parent.version 1))
          invalid_version_progression
      >> reject_if (ltb proposal.created_at parent.created_at)
          (invalid_operation Reason.created_before_predecessor)
      >> reject_if (has_flag flag_frozen parent.flags) (invalid_operation Reason.frozen_predecessor)
]

unfoldable pub validate_output_proposals :
    ComputeTx → List ObjectOutput → List OutputProposal → ComputeResult (Unit {0})
validate_output_proposals tx inputs [] = ok tt
validate_output_proposals tx inputs (proposal ∷ proposals) =
    reject_if (not (proposal.domain_id == tx.domain_id))
      (domain_mismatch tx.domain_id proposal.domain_id)
    >> validate_proposal_lifecycle proposal tx
    >> validate_lineage proposal inputs
    >> validate_output_proposals tx inputs proposals

unfoldable pub validate : Backends → ObjectStore → ComputeTx → ComputeResult ValidationReport
validate backends s tx =
    reject_if (not (basic_sanity_check tx)) (invalid_operation Reason.failed_sanity_check)
    >> validate_tx_envelope tx
    >> (ok_or (backends.get_domain tx.domain_id) (domain_not_registered tx.domain_id) >>= λ domain.
        reject_if (not domain.public) (domain_not_public tx.domain_id)
        >> (validate_inputs tx s tx.input_set >>= λ inputs.
            validate_reads tx s tx.read_set >>= λ reads.
            validate_output_proposals tx inputs tx.output_proposals
            >> backends.authorize tx inputs reads
            >> backends.check_resources tx inputs reads
            >> ok (record { inputs = inputs; reads = reads })))
