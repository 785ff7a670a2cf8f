-- ===== src/Compute/Policy/Authorization/Guarantees.antt =====
-- What a successful authorization has established.
use rabbit_chain_node.Prelude.{
  ◌≤◌, ◌<◌, ◌≡◌, refl, inl, inr, ◌⊎◌, Bool, true, false, ◌||◌, List, [], ◌∷◌, some, ◌==◌, list_eq,
  list_eq→eq, length, All, arith, unwrap_or, Option-cases, Bool-cases, ==_iff,
}
use rabbit_chain_node.Compute.Types.{
  Bytes, Address, Ownership, address, program, shared, ed25519, ObjectOutput, ComputeTx,
  TxSignature, ComputeResult, ok, err,
}
use rabbit_chain_node.Compute.Results.{>>=-eq-ok}
use rabbit_chain_node.Compute.Tx.{is_mint, is_burn}
use rabbit_chain_node.Compute.Tx.Preimage.{signing_preimage, to_be_bytes}
use rabbit_chain_node.Compute.Policy.Authorization.{
  Crypto, expected_tx_id, has_consistent_tx_id, address_from_ed25519_public_key,
  ed25519_signature_matches_address_owner, ed25519_signature_matches_owner, matches_key,
  require_program_owners, require_owner_signature, require_owner_signatures, accept_match,
  moves_value, authorize,
}

-- Some element satisfies the predicate.
abbrev pub Some {ℓ} : {A : Type ℓ} → (A → Type 0) → List A → Type 0
Some P [] = ⊥
Some P (x ∷ xs) = P x ⊎ Some P xs

abbrev pub IsProgram : Ownership → Type 0
IsProgram (program a) = Unit
IsProgram shared = Unit
IsProgram _ = ⊥

module _ (c : Crypto) (tx : ComputeTx) where
  -- The signature verifies over the signing preimage, under the key that it carries.
  pub record IsSignature (sig : TxSignature) (pk : Bytes) : Type 0 where
    pub carried : sig.public_key ≡ some pk
    pub whole : length pk ≡ 32
    pub verified : c.verify pk (signing_preimage tx) sig.bytes ≡ true

  abbrev pub SignsForAddress : Address → TxSignature → Type 0
  SignsForAddress owner sig =
      (pk : Bytes) × IsSignature sig pk × (address_from_ed25519_public_key c pk ≡ owner)

  abbrev pub SignsForKey : Bytes → TxSignature → Type 0
  SignsForKey owner sig = IsSignature sig owner

  matches_address-Some :
      (owner : Address) (sigs : List TxSignature)
      → ed25519_signature_matches_address_owner c tx owner sigs ≡ ok true
      → Some (SignsForAddress owner) sigs
  unfolding ed25519_signature_matches_address_owner
  matches_address-Some owner [] h = cc
  matches_address-Some owner (sig ∷ sigs) h = elim (Option-cases sig.public_key) [
    | inl absent ↦ absurd (ground arith)
    | inr (pk, carried) ↦ elim (Bool-cases (address_from_ed25519_public_key c pk == owner)) [
      | inr other ↦ inr (matches_address-Some owner sigs (ground arith))
      | inl derived ↦ elim (Bool-cases (c.verify pk (signing_preimage tx) sig.bytes)) [
        | inr bad ↦ inr (matches_address-Some owner sigs (ground arith))
        | inl good ↦ inl (
          pk,
          record { carried = carried; whole = ground arith; verified = good },
          (==_iff _ owner).0 derived,
        )
      ]
    ]
  ]

  matches_key-Some :
      (owner : Bytes) (sigs : List TxSignature)
      → matches_key c tx owner sigs ≡ ok true
      → Some (SignsForKey owner) sigs
  matches_key-Some owner [] h = cc
  matches_key-Some owner (sig ∷ sigs) h = elim (Option-cases sig.public_key) [
    | inl absent ↦ absurd (ground arith)
    | inr (pk, carried) ↦ elim (Bool-cases (list_eq pk owner)) [
      | inr other ↦ inr (matches_key-Some owner sigs (ground arith))
      | inl same ↦ elim (Bool-cases (c.verify owner (signing_preimage tx) sig.bytes)) [
        | inr bad ↦ inr (matches_key-Some owner sigs (ground arith))
        | inl good ↦
            let e : pk ≡ owner = list_eq→eq pk owner same in
            inl (record {
              carried = rw e at carried;
              whole = rw e at (let n : length pk ≡ 32 = ground arith in n);
              verified = good;
            })
      ]
    ]
  ]

  -- The owner has signed. A program or nobody in particular has no signature to give.
  abbrev pub OwnerSigned : Ownership → Type 0
  OwnerSigned (address a) = Some (SignsForAddress a) tx.witness.signatures
  OwnerSigned (ed25519 key) = Some (SignsForKey (to_be_bytes 32 key)) tx.witness.signatures
  OwnerSigned _ = Unit

  accepted : (m : ComputeResult Bool) → accept_match c m ≡ ok tt → m ≡ ok true
  accepted (ok true) h = refl
  accepted (ok false) h = cc
  accepted (err e) h = cc

  owner_signed :
      (owner : Ownership) (o : ObjectOutput)
      → o.owner ≡ owner
      → require_owner_signature c tx o ≡ ok tt
      → OwnerSigned owner
  unfolding require_owner_signature ed25519_signature_matches_owner
  owner_signed (address a) o e h =
      matches_address-Some a tx.witness.signatures (accepted _ (ground arith))
  owner_signed (ed25519 key) o e h =
      matches_key-Some (to_be_bytes 32 key) tx.witness.signatures (accepted _ (ground arith))
  owner_signed (program a) o e h = tt
  owner_signed shared o e h = tt

  owners_signed :
      (os : List ObjectOutput)
      → require_owner_signatures c tx os ≡ ok tt
      → All (λ o. OwnerSigned o.owner) os
  unfolding require_owner_signatures
  owners_signed [] h = tt
  owners_signed (o ∷ os) h =
      let (u, one, rest) = >>=-eq-ok (require_owner_signature c tx o) _ h in
      (owner_signed o.owner o refl one, owners_signed os rest)

  IsProgram-owner :
      (owner : Ownership) (o : ObjectOutput) (os : List ObjectOutput)
      → o.owner ≡ owner
      → require_program_owners c (o ∷ os) ≡ ok tt
      → IsProgram owner × (require_program_owners c os ≡ ok tt)
  unfolding require_program_owners
  IsProgram-owner (program a) o os e h = (tt, ground arith)
  IsProgram-owner shared o os e h = (tt, ground arith)
  IsProgram-owner (address a) o os e h = absurd (ground arith)
  IsProgram-owner (ed25519 key) o os e h = absurd (ground arith)

  IsProgram-owners :
      (os : List ObjectOutput)
      → require_program_owners c os ≡ ok tt
      → All (λ o. IsProgram o.owner) os
  IsProgram-owners [] h = tt
  IsProgram-owners (o ∷ os) h =
      let (one, rest) = IsProgram-owner o.owner o os refl h in (one, IsProgram-owners os rest)

  -- What authorization stands for.
  pub record Authorized (inputs : List ObjectOutput) : Type 0 where
    pub identified : tx.tx_id ≡ expected_tx_id c tx
    pub required : 0 < unwrap_or tx.witness.threshold 1
    pub enough : unwrap_or tx.witness.threshold 1 ≤ length tx.witness.signatures
    pub owned : (moves_value c tx.command ≡ false) ⊎ All (λ o. OwnerSigned o.owner) inputs
    pub programmed :
        ((is_mint tx.command || is_burn tx.command) ≡ false) ⊎ All (λ o. IsProgram o.owner) inputs

  -- An authorized transaction carries the identifier that its signed bytes have, and at least one
  -- signature and as many as its threshold asks for. For a transfer or an invocation, every input that
  -- an address or a key owns has among the signatures one that verifies over the signed bytes under a key
  -- of that owner. A mint or a burn consumes only program-owned and shared inputs.
  pub authorize-Authorized :
      (inputs reads : List ObjectOutput) → authorize c tx inputs reads ≡ ok tt → Authorized inputs
  unfolding authorize has_consistent_tx_id
  authorize-Authorized inputs reads h = record {
    identified = ground arith;
    required = ground arith;
    enough = ground arith;
    owned = elim (Bool-cases (moves_value c tx.command)) [
      | inl moves ↦ inr (owners_signed inputs (ground arith))
      | inr stays ↦ inl stays
    ];
    programmed = elim (Bool-cases (is_mint tx.command || is_burn tx.command)) [
      | inl mints ↦ inr (IsProgram-owners inputs (ground arith))
      | inr other ↦ inl other
    ];
  }
