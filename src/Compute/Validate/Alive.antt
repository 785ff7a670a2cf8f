-- ===== src/Compute/Validate/Alive.antt =====
-- What the checks on the life of an object and on the envelope of a transaction establish.
use rabbit_chain_node.Prelude.{
  ℕ, ◌≤◌, ◌<◌, ◌≡◌, ◌⊎◌, refl, inl, inr, true, false, List, [], ◌∷◌, Option, none, some, length,
  arith, All, Bool-cases, Option-cases,
}
use rabbit_chain_node.Compute.Types.{
  LifecycleSource, ObjectKind, ObjectOutput, OutputProposal, ComputeTx, Metadata, Text, Bytes, ok,
}
use rabbit_chain_node.Compute.Tx.{is_mint}
use rabbit_chain_node.Compute.Tx.Preimage.{as_bytes}
use rabbit_chain_node.Compute.Validate.Envelope.{
  is_some_zero, is_blank, nonce_required, validate_entries, validate_metadata, validate_tx_envelope,
}
use rabbit_chain_node.Compute.Validate.Lifecycle.{
  has_flag, flag_agent, flag_channel, is_agent, is_ticket, validate_common_flags,
  validate_existing_output_lifecycle, validate_proposal_lifecycle,
}

-- Only the five known flags are set, the flag of agents on agents alone and that of channels on tickets.
record HasKnownFlags (kind : ObjectKind) (flags : ℕ) : Type 0 where
  known : flags < 32
  agent : (has_flag flag_agent flags ≡ false) ⊎ (is_agent kind ≡ true)
  channel : (has_flag flag_channel flags ≡ false) ⊎ (is_ticket kind ≡ true)

-- A time to live ends after the creation, and not before the deadline of the transaction, which is given.
Outlives : ComputeTx → ℕ → Option ℕ → Type 0
Outlives tx created ttl =
    (ttl ≡ none)
    ⊎ ((last : ℕ) × (deadline : ℕ) × (ttl ≡ some last)
        × (created < last)
        × (tx.deadline_unix_secs ≡ some deadline)
        × (deadline ≤ last))

-- No number, or a positive one.
IsPositive : Option ℕ → Type 0
IsPositive n = (n ≡ none) ⊎ ((k : ℕ) × (n ≡ some k) × (0 < k))

pub record IsAlive (tx : ComputeTx) (o : ObjectOutput) : Type 0 where
  flags : HasKnownFlags o.kind o.flags
  rent : IsPositive o.rent_reserve
  lifetime : Outlives tx o.created_at o.ttl

-- A proposal with a time to live pays rent.
pub record IsViable (tx : ComputeTx) (p : OutputProposal) : Type 0 where
  flags : HasKnownFlags p.kind p.flags
  rent : IsPositive p.rent_reserve
  lifetime : Outlives tx p.created_at p.ttl
  paid : (p.ttl ≡ none) ⊎ ((k : ℕ) × (p.rent_reserve ≡ some k) × (0 < k))

positive : (n : Option ℕ) → is_some_zero n ≡ false → IsPositive n
unfolding IsPositive
positive none h = inl refl
positive (some k) h = inr (k, refl, ground (arith, h))

flags_known :
    (source : LifecycleSource) (kind : ObjectKind) (flags : ℕ)
    → validate_common_flags source kind flags ≡ ok tt
    → HasKnownFlags kind flags
unfolding validate_common_flags
flags_known source kind flags h = record {
  known = ground (arith, h);
  agent = elim (Bool-cases (has_flag flag_agent flags)) [
    | inr clear ↦ inl clear
    | inl set ↦ inr (ground (arith, h, set))
  ];
  channel = elim (Bool-cases (has_flag flag_channel flags)) [
    | inr clear ↦ inl clear
    | inl set ↦ inr (ground (arith, h, set))
  ];
}

pub validate_existing_output_lifecycle-IsAlive :
    (tx : ComputeTx) (source : LifecycleSource) (o : ObjectOutput)
    → validate_existing_output_lifecycle o tx source ≡ ok tt
    → IsAlive tx o
unfolding validate_existing_output_lifecycle Outlives
validate_existing_output_lifecycle-IsAlive tx source o h = record {
  flags = flags_known source o.kind o.flags (ground (arith, h));
  rent = positive o.rent_reserve (ground (arith, h));
  lifetime = elim (Option-cases o.ttl) [
    | inl forever ↦ inl forever
    | inr (last, e) ↦ elim (Option-cases tx.deadline_unix_secs) [
      | inl missing ↦ absurd (ground (arith, h, e))
      | inr (deadline, d) ↦
          inr (last, deadline, e, ground (arith, h, e, d), d, ground (arith, h, e, d))
    ]
  ];
}

pub validate_proposal_lifecycle-IsViable :
    (tx : ComputeTx) (p : OutputProposal) → validate_proposal_lifecycle p tx ≡ ok tt → IsViable tx p
unfolding validate_proposal_lifecycle Outlives
validate_proposal_lifecycle-IsViable tx p h = record {
  flags = flags_known LifecycleSource.from_proposal p.kind p.flags (ground (arith, h));
  rent = positive p.rent_reserve (ground (arith, h));
  lifetime = elim (Option-cases p.ttl) [
    | inl forever ↦ inl forever
    | inr (last, e) ↦ elim (Option-cases tx.deadline_unix_secs) [
      | inl missing ↦ absurd (ground (arith, h, e))
      | inr (deadline, d) ↦
          inr (last, deadline, e, ground (arith, h, e, d), d, ground (arith, h, e, d))
    ]
  ];
  paid = elim (Option-cases p.ttl) [
    | inl forever ↦ inl forever
    | inr (last, e) ↦ elim (Option-cases tx.deadline_unix_secs) [
      | inl missing ↦ absurd (ground (arith, h, e))
      | inr (deadline, d) ↦ elim (Option-cases p.rent_reserve) [
        | inl free ↦ absurd (ground (arith, h, e, d, free))
        | inr (k, r) ↦ inr (k, r, ground (arith, h, e, d, r))
      ]
    ]
  ];
}

-- An entry with a key that is not blank, of 128 bytes at most, and a value of 4096 bytes at most.
abbrev IsEntry : Text × Bytes → Type 0
IsEntry (key, value) =
    (is_blank key ≡ false) × (length (as_bytes key) ≤ 128) × (length value ≤ 4096)

pub record IsEnveloped (tx : ComputeTx) : Type 0 where
  nonce : IsPositive tx.nonce
  nonce_given : (nonce_required tx ≡ false) ⊎ ((n : ℕ) × (tx.nonce ≡ some n))
  free_mint : (is_mint tx.command ≡ false) ⊎ (tx.fee ≡ 0)
  entries : length tx.metadata ≤ 64
  metadata : All IsEntry tx.metadata

entries_valid : (keys : List Text) (m : Metadata) → validate_entries keys m ≡ ok tt → All IsEntry m
unfolding validate_entries
entries_valid keys [] h = tt
entries_valid keys ((key, value) ∷ rest) h = (
  (ground (arith, h), ground (arith, h), ground (arith, h)),
  entries_valid (key ∷ keys) rest (ground (arith, h)),
)

pub validate_tx_envelope-IsEnveloped :
    (tx : ComputeTx) → validate_tx_envelope tx ≡ ok tt → IsEnveloped tx
unfolding validate_tx_envelope validate_metadata
validate_tx_envelope-IsEnveloped tx h =
    let entries : validate_entries [] tx.metadata ≡ ok tt = ground (arith, h) in
    record {
      nonce = positive tx.nonce (ground (arith, h));
      nonce_given = elim (Bool-cases (nonce_required tx)) [
        | inr free ↦ inl free
        | inl needed ↦ elim (Option-cases tx.nonce) [
          | inl missing ↦ absurd (ground (arith, h, needed, missing))
          | inr (n, e) ↦ inr (n, e)
        ]
      ];
      free_mint = elim (Bool-cases (is_mint tx.command)) [
        | inr other ↦ inl other
        | inl mint ↦ inr (ground (arith, h, mint))
      ];
      entries = ground (arith, h);
      metadata = entries_valid [] tx.metadata entries;
    }
