-- ===== src/Compute/Validate/Lifecycle.antt =====
-- The checks on the life of an object: `validate_common_flags`, `validate_existing_output_lifecycle`
-- and `validate_proposal_lifecycle` (compute/execution.rs).
use rabbit_chain_node.Prelude.{
  ℕ, ◌/◌, ◌%◌, Bool, true, false, not, ◌&&◌, none, some, ltb, leb, ◌==◌, unwrap_or,
}
use rabbit_chain_node.Compute.Types.{
  LifecycleSource, ObjectKind, ObjectOutput, OutputProposal, ComputeTx, invalid_operation, Reason,
  ComputeResult, ok, ◌>>=◌, ◌>>◌, reject_if, ok_or,
}
use rabbit_chain_node.Compute.Validate.Envelope.{is_some_zero}

-- `flags & FLAG != 0` for a flag of one bit
abbrev pub has_flag : ℕ → ℕ → Bool
has_flag flag flags = flags / flag % 2 == 1

abbrev pub flag_frozen : ℕ
flag_frozen = 0x04

abbrev pub flag_agent : ℕ
flag_agent = 0x08

abbrev pub flag_channel : ℕ
flag_channel = 0x10

-- `flags & !KNOWN_FLAGS_MASK != 0`: a bit above the lowest five
abbrev pub has_unknown_flags : ℕ → Bool
has_unknown_flags flags = not (flags / 0x20 == 0)

abbrev pub is_agent : ObjectKind → Bool
is_agent ObjectKind.agent = true
is_agent _ = false

abbrev pub is_ticket : ObjectKind → Bool
is_ticket ObjectKind.ticket = true
is_ticket _ = false

unfoldable pub validate_common_flags : LifecycleSource → ObjectKind → ℕ → ComputeResult (Unit {0})
validate_common_flags source kind flags =
    reject_if (has_unknown_flags flags) (invalid_operation (Reason.unknown_flags source flags))
    >> reject_if (has_flag flag_agent flags && not (is_agent kind))
        (invalid_operation (Reason.agent_flag_kind source))
    >> reject_if (has_flag flag_channel flags && not (is_ticket kind))
        (invalid_operation (Reason.channel_flag_kind source))

unfoldable pub validate_existing_output_lifecycle :
    ObjectOutput → ComputeTx → LifecycleSource → ComputeResult (Unit {0})
unfolding validate_common_flags
validate_existing_output_lifecycle output tx source =
    validate_common_flags source output.kind output.flags
    >> reject_if (is_some_zero output.rent_reserve) (invalid_operation (Reason.zero_rent source))
    >> elim output.ttl [
      | none ↦ ok tt
      | some ttl ↦
          reject_if (leb ttl output.created_at)
            (invalid_operation (Reason.ttl_not_after_creation source))
          >> (ok_or tx.deadline_unix_secs (invalid_operation Reason.deadline_required)
              >>= λ exec_ref.
                  reject_if (ltb ttl exec_ref)
                    (invalid_operation (Reason.object_expired source ttl exec_ref)))
    ]

unfoldable pub validate_proposal_lifecycle : OutputProposal → ComputeTx → ComputeResult (Unit {0})
unfolding validate_common_flags
validate_proposal_lifecycle proposal tx =
    validate_common_flags LifecycleSource.from_proposal proposal.kind proposal.flags
    >> reject_if (is_some_zero proposal.rent_reserve)
        (invalid_operation (Reason.zero_rent LifecycleSource.from_proposal))
    >> elim proposal.ttl [
      | none ↦ ok tt
      | some ttl ↦
          reject_if (leb ttl proposal.created_at)
            (invalid_operation (Reason.ttl_not_after_creation LifecycleSource.from_proposal))
          >> (ok_or tx.deadline_unix_secs (invalid_operation Reason.proposal_deadline_required)
              >>= λ exec_ref.
                  reject_if (ltb ttl exec_ref) (invalid_operation Reason.proposal_expired)
                  >> reject_if (unwrap_or proposal.rent_reserve 0 == 0)
                      (invalid_operation Reason.ttl_without_rent))
    ]
