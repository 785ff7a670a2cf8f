-- ===== src/Compute/Validate/Sound.antt =====
-- What a successful validation has established.
use rabbit_chain_node.Prelude.{
  ℕ, ◌≤◌, ◌≡◌, inl, inr, ◌⊎◌, true, false, List, [], ◌∷◌, none, some, ◌==◌, find, arith, All,
  sat_add_u64, Option-cases,
}
use rabbit_chain_node.Compute.Types.{
  LifecycleSource, Hash, ObjectOutput, ObjectReadRef, OutputProposal, ComputeTx, ok,
}
use rabbit_chain_node.Compute.Results.{>>=-eq-ok}
use rabbit_chain_node.Compute.Store.{ObjectStore, get_output}
use rabbit_chain_node.Compute.Tx.{basic_sanity_check}
use rabbit_chain_node.Compute.Validate.{
  Backends, ValidationReport, DomainConfig, validate_input, validate_inputs, validate_read,
  validate_reads, validate_lineage, validate_output_proposals, validate,
}
use rabbit_chain_node.Compute.Validate.Lifecycle.{
  has_flag, flag_frozen, validate_existing_output_lifecycle,
}
use rabbit_chain_node.Compute.Validate.Alive.{
  IsAlive, IsViable, IsEnveloped, validate_existing_output_lifecycle-IsAlive,
  validate_proposal_lifecycle-IsViable, validate_tx_envelope-IsEnveloped,
}

-- The identifier `id` names the stored output `o`, which is live and in the domain.
pub record IsSpendable (s : ObjectStore) (domain : ℕ) (id : Hash) (o : ObjectOutput) : Type 0 where
  pub found : get_output id s ≡ some o
  pub live : o.spent ≡ false
  pub in_domain : o.domain_id ≡ domain

-- The outputs are those of the identifiers, one for one and in order.
abbrev pub Resolves : ObjectStore → ℕ → List Hash → List ObjectOutput → Type 0
Resolves s domain [] [] = Unit
Resolves s domain [] (o ∷ os) = ⊥
Resolves s domain (id ∷ ids) [] = ⊥
Resolves s domain (id ∷ ids) (o ∷ os) = IsSpendable s domain id o × Resolves s domain ids os

validate_input_ok :
    (tx : ComputeTx) (s : ObjectStore) (id : Hash) (o : ObjectOutput)
    → validate_input tx s id ≡ ok o
    → IsSpendable s tx.domain_id id o
unfolding validate_input
validate_input_ok tx s id o h = ground arith

pub validate_inputs-Resolves :
    (tx : ComputeTx) (s : ObjectStore) (ids : List Hash) (os : List ObjectOutput)
    → validate_inputs tx s ids ≡ ok os
    → Resolves s tx.domain_id ids os
unfolding validate_inputs
validate_inputs-Resolves tx s [] [] h = tt
validate_inputs-Resolves tx s [] (o ∷ os) h = cc
validate_inputs-Resolves tx s (id ∷ ids) [] h =
    let (o, e, rest) = >>=-eq-ok (validate_input tx s id) _ h in
    let (os, f, last) = >>=-eq-ok (validate_inputs tx s ids) _ rest in cc
validate_inputs-Resolves tx s (id ∷ ids) (o ∷ os) h =
    let (o', e, rest) = >>=-eq-ok (validate_input tx s id) _ h in
    let (os', f, last) = >>=-eq-ok (validate_inputs tx s ids) _ rest in
    (validate_input_ok tx s id o (cc), validate_inputs-Resolves tx s ids os (cc))

-- The proposal is the next version of the object of `parent`.
pub record Succeeds (parent : ObjectOutput) (p : OutputProposal) : Type 0 where
  pub same_object : parent.object_id ≡ p.object_id
  pub next_version : p.version ≡ sat_add_u64 parent.version 1
  pub no_earlier : parent.created_at ≤ p.created_at
  pub thawed : has_flag flag_frozen parent.flags ≡ false

-- A proposal has no predecessor and version 1, or continues one of the consumed inputs.
abbrev pub Lineage : List ObjectOutput → OutputProposal → Type 0
Lineage inputs p =
    ((p.predecessor ≡ none) × (p.version ≡ 1))
    ⊎ ((pred : Hash) × (parent : ObjectOutput) × (p.predecessor ≡ some pred)
        × (find (λ o. o.output_id == pred) inputs ≡ some parent)
        × Succeeds parent p)

validate_lineage-Lineage :
    (p : OutputProposal) (inputs : List ObjectOutput)
    → validate_lineage p inputs ≡ ok tt
    → Lineage inputs p
unfolding validate_lineage
validate_lineage-Lineage p inputs h = elim (Option-cases p.predecessor) [
  | inl fresh ↦ inl (fresh, ground arith)
  | inr (pred, e) ↦ elim (Option-cases (find (λ o. o.output_id == pred) inputs)) [
    | inl missing ↦ absurd (ground arith)
    | inr (parent, f) ↦ inr (pred, parent, e, f, ground arith)
  ]
]

pub validate_output_proposals-Lineage :
    (tx : ComputeTx) (inputs : List ObjectOutput) (ps : List OutputProposal)
    → validate_output_proposals tx inputs ps ≡ ok tt
    → All (λ p. (p.domain_id ≡ tx.domain_id) × Lineage inputs p) ps
unfolding validate_output_proposals
validate_output_proposals-Lineage tx inputs [] h = tt
validate_output_proposals-Lineage tx inputs (p ∷ ps) h =
    let steps : (p.domain_id ≡ tx.domain_id)
        × (validate_lineage p inputs ≡ ok tt)
        × (validate_output_proposals tx inputs ps ≡ ok tt) =
      ground arith in
    (
      (steps.0, validate_lineage-Lineage p inputs steps.1),
      validate_output_proposals-Lineage tx inputs ps steps.2,
    )

validate_output_proposals-IsViable :
    (tx : ComputeTx) (inputs : List ObjectOutput) (ps : List OutputProposal)
    → validate_output_proposals tx inputs ps ≡ ok tt
    → All (λ p. IsViable tx p) ps
unfolding validate_output_proposals
validate_output_proposals-IsViable tx inputs [] h = tt
validate_output_proposals-IsViable tx inputs (p ∷ ps) h = (
  validate_proposal_lifecycle-IsViable tx p (ground (arith, h)),
  validate_output_proposals-IsViable tx inputs ps (ground (arith, h)),
)

-- The output that a read names is stored, in the domain and the version that the read expects.
pub record IsRead (s : ObjectStore) (rr : ObjectReadRef) (o : ObjectOutput) : Type 0 where
  found : get_output rr.output_id s ≡ some o
  in_domain : o.domain_id ≡ rr.domain_id
  version : o.version ≡ rr.expected_version

abbrev pub ReadsResolve : ObjectStore → List ObjectReadRef → List ObjectOutput → Type 0
ReadsResolve s [] [] = Unit
ReadsResolve s [] (o ∷ os) = ⊥
ReadsResolve s (rr ∷ rrs) [] = ⊥
ReadsResolve s (rr ∷ rrs) (o ∷ os) = IsRead s rr o × ReadsResolve s rrs os

validate_read_ok :
    (tx : ComputeTx) (s : ObjectStore) (rr : ObjectReadRef) (o : ObjectOutput)
    → validate_read tx s rr ≡ ok o
    → IsRead s rr o × IsAlive tx o
unfolding validate_read
validate_read_ok tx s rr o h =
    let alive : validate_existing_output_lifecycle o tx LifecycleSource.from_read ≡ ok tt =
      ground (arith, h) in
    (
      ground (arith, h),
      validate_existing_output_lifecycle-IsAlive tx LifecycleSource.from_read o alive,
    )

validate_reads-ReadsResolve :
    (tx : ComputeTx) (s : ObjectStore) (rrs : List ObjectReadRef) (os : List ObjectOutput)
    → validate_reads tx s rrs ≡ ok os
    → ReadsResolve s rrs os × All (λ o. IsAlive tx o) os
unfolding validate_reads
validate_reads-ReadsResolve tx s [] [] h = (tt, tt)
validate_reads-ReadsResolve tx s [] (o ∷ os) h = cc
validate_reads-ReadsResolve tx s (rr ∷ rrs) [] h =
    let (o, e, rest) = >>=-eq-ok (validate_read tx s rr) _ h in
    let (os, f, last) = >>=-eq-ok (validate_reads tx s rrs) _ rest in cc
validate_reads-ReadsResolve tx s (rr ∷ rrs) (o ∷ os) h =
    let (o', e, rest) = >>=-eq-ok (validate_read tx s rr) _ h in
    let (os', f, last) = >>=-eq-ok (validate_reads tx s rrs) _ rest in
    let (read, alive) = validate_read_ok tx s rr o (cc) in
    let (reads, others) = validate_reads-ReadsResolve tx s rrs os (cc) in
    ((read, reads), (alive, others))

validate_input-IsAlive :
    (tx : ComputeTx) (s : ObjectStore) (id : Hash) (o : ObjectOutput)
    → validate_input tx s id ≡ ok o
    → IsAlive tx o
unfolding validate_input
validate_input-IsAlive tx s id o h =
    let alive : validate_existing_output_lifecycle o tx LifecycleSource.from_input ≡ ok tt =
      ground (arith, h) in
    validate_existing_output_lifecycle-IsAlive tx LifecycleSource.from_input o alive

validate_inputs-IsAlive :
    (tx : ComputeTx) (s : ObjectStore) (ids : List Hash) (os : List ObjectOutput)
    → validate_inputs tx s ids ≡ ok os
    → All (λ o. IsAlive tx o) os
unfolding validate_inputs
validate_inputs-IsAlive tx s [] [] h = tt
validate_inputs-IsAlive tx s [] (o ∷ os) h = cc
validate_inputs-IsAlive tx s (id ∷ ids) [] h = tt
validate_inputs-IsAlive tx s (id ∷ ids) (o ∷ os) h =
    let (o', e, rest) = >>=-eq-ok (validate_input tx s id) _ h in
    let (os', f, last) = >>=-eq-ok (validate_inputs tx s ids) _ rest in
    (validate_input-IsAlive tx s id o (cc), validate_inputs-IsAlive tx s ids os (cc))

-- What a report stands for.
pub record Accepted (b : Backends) (s : ObjectStore) (tx : ComputeTx) (r : ValidationReport)
    : Type 0 where
  pub sane : basic_sanity_check tx ≡ true
  pub enveloped : IsEnveloped tx
  pub domain : (d : DomainConfig) × (b.get_domain tx.domain_id ≡ some d) × (d.public ≡ true)
  pub inputs : Resolves s tx.domain_id tx.input_set r.inputs
  pub inputs_alive : All (λ o. IsAlive tx o) r.inputs
  pub reads : ReadsResolve s tx.read_set r.reads
  pub reads_alive : All (λ o. IsAlive tx o) r.reads
  pub lineage : All (λ p. (p.domain_id ≡ tx.domain_id) × Lineage r.inputs p) tx.output_proposals
  pub viable : All (λ p. IsViable tx p) tx.output_proposals
  pub authorized : b.authorize tx r.inputs r.reads ≡ ok tt
  pub balanced : b.check_resources tx r.inputs r.reads ≡ ok tt

-- A transaction that validates is sane. Its nonce is not zero, and present where one is required, a mint has
-- no fee, and its metadata are within their limits. Its domain is registered and public. Its inputs are, in
-- order, live outputs of the store in its domain, and its reads, in order, stored outputs of the domain and
-- the version that they expect; all of them have known flags and positive rent or none, and none expires
-- before the deadline. Each proposal stays in the domain, follows its predecessor, has known flags, is not
-- expired and pays rent where it has a time to live. Both policies accept the transaction.
pub validate-Accepted :
    (b : Backends) (s : ObjectStore) (tx : ComputeTx) (r : ValidationReport)
    → validate b s tx ≡ ok r
    → Accepted b s tx r
unfolding validate
validate-Accepted b s tx r h =
    let inputs : validate_inputs tx s tx.input_set ≡ ok r.inputs = ground (arith, h) in
    let reads : validate_reads tx s tx.read_set ≡ ok r.reads = ground (arith, h) in
    let proposals : validate_output_proposals tx r.inputs tx.output_proposals ≡ ok tt =
      ground (arith, h) in
    let (found, alive) = validate_reads-ReadsResolve tx s tx.read_set r.reads reads in
    record {
      sane = ground (arith, h);
      enveloped = validate_tx_envelope-IsEnveloped tx (ground (arith, h));
      domain = ground (arith, h);
      inputs = validate_inputs-Resolves tx s tx.input_set r.inputs inputs;
      inputs_alive = validate_inputs-IsAlive tx s tx.input_set r.inputs inputs;
      reads = found;
      reads_alive = alive;
      lineage = validate_output_proposals-Lineage tx r.inputs tx.output_proposals proposals;
      viable = validate_output_proposals-IsViable tx r.inputs tx.output_proposals proposals;
      authorized = ground (arith, h);
      balanced = ground (arith, h);
    }
