-- ===== src/Compute/Tx/Preimage/Proposals.antt =====
-- The encoding of a read reference and of an output proposal binds every field.
use rabbit_chain_node.Prelude.{refl}
use rabbit_chain_node.Compute.Types.{Bytes, ObjectReadRef, OutputProposal}
use rabbit_chain_node.Compute.Tx.Preimage.{encode_read_ref, encode_proposal}
use rabbit_chain_node.Compute.Tx.Preimage.Codes.{
  PrefixCode, IsWord, word, ◌&◌, ◌~>◌, through, OptionFits, option, BytesFit, bytes,
}
use rabbit_chain_node.Compute.Tx.Preimage.Values.{
  hash, MetadataFits, metadata, ScriptFits, script, ResourceMapFits, resource_map, OwnershipFits,
  ownership, kind,
}

-- Every number of the reference is in the range of its type.
pub record ReadRefFits (rr : ObjectReadRef) : Type 0 where
  pub output_id : IsWord 32 rr.output_id
  pub domain_id : IsWord 4 rr.domain_id
  pub expected_version : IsWord 8 rr.expected_version

-- A code read in a narrower range.
pub weaken :
    {A : Type 0} {P Q : A → Type 0} {e : A → Bytes}
    → ((a : A) → Q a → P a)
    → PrefixCode P e
    → PrefixCode Q e
weaken f c = record { split = λ a b r s v w h. c.split a b r s (f a v) (f b w) h }

pub read_ref : PrefixCode ReadRefFits encode_read_ref
read_ref =
    weaken (λ rr v. v.output_id & v.domain_id & v.expected_version)
      (through {A = ObjectReadRef} (λ rr. rr.output_id & rr.domain_id & rr.expected_version)
        (λ t. record { output_id = t.0; domain_id = t.1.0; expected_version = t.1.1 }) (λ rr. refl)
        (hash ~> word 4 ~> word 8))

-- Every number of the proposal is in the range of its type, and every length in that of `u32`.
pub record ProposalFits (p : OutputProposal) : Type 0 where
  pub output_id : IsWord 32 p.output_id
  pub object_id : IsWord 32 p.object_id
  pub domain_id : IsWord 4 p.domain_id
  pub owner : OwnershipFits p.owner
  pub predecessor : OptionFits (IsWord 32) p.predecessor
  pub version : IsWord 8 p.version
  pub state : BytesFit p.state
  pub state_root : OptionFits (IsWord 32) p.state_root
  pub resources : ResourceMapFits p.resources
  pub lock : ScriptFits p.lock
  pub logic : OptionFits ScriptFits p.logic
  pub created_at : IsWord 8 p.created_at
  pub ttl : OptionFits (IsWord 8) p.ttl
  pub rent_reserve : OptionFits (IsWord 16) p.rent_reserve
  pub flags : IsWord 4 p.flags
  pub extensions : MetadataFits p.extensions

pub proposal : PrefixCode ProposalFits encode_proposal
unfolding encode_proposal
proposal =
    weaken
      (λ p v.
        v.output_id & v.object_id & v.domain_id & tt & v.owner & v.predecessor & v.version & v.state
        & v.state_root & v.resources & v.lock & v.logic & v.created_at & v.ttl & v.rent_reserve
        & v.flags & v.extensions)
      (through {A = OutputProposal}
        (λ p.
          p.output_id & p.object_id & p.domain_id & p.kind & p.owner & p.predecessor & p.version
          & p.state & p.state_root & p.resources & p.lock & p.logic & p.created_at & p.ttl
          & p.rent_reserve & p.flags & p.extensions)
        (λ t.
          let u = t.1.1.1.1.1.1.1 in
          let w = u.1.1.1.1.1.1 in
          record {
            output_id = t.0;
            object_id = t.1.0;
            domain_id = t.1.1.0;
            kind = t.1.1.1.0;
            owner = t.1.1.1.1.0;
            predecessor = t.1.1.1.1.1.0;
            version = t.1.1.1.1.1.1.0;
            state = u.0;
            state_root = u.1.0;
            resources = u.1.1.0;
            lock = u.1.1.1.0;
            logic = u.1.1.1.1.0;
            created_at = u.1.1.1.1.1.0;
            ttl = w.0;
            rent_reserve = w.1.0;
            flags = w.1.1.0;
            extensions = w.1.1.1;
          })
        (λ p. refl)
        (hash
          ~> hash
          ~> word 4
          ~> kind
          ~> ownership
          ~> option hash
          ~> word 8
          ~> bytes
          ~> option hash
          ~> resource_map
          ~> script
          ~> option script
          ~> word 8
          ~> option (word 8)
          ~> option (word 16)
          ~> word 4
          ~> metadata))
