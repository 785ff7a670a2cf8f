-- ===== src/Compute/Gas/Estimate.antt =====
-- The estimate is the exact sum of the parts, capped once at the largest `u64`: no saturating step on
-- the way loses anything else.
use rabbit_chain_node.Prelude.{
  ℕ, ◌+◌, ◌*◌, ◌≡◌, ◌∙◌, inl, inr, min, List, [], ◌∷◌, Option, none, some, ◌==◌, if◌then◌else◌,
  length, contains, sat_add_u64, u64_max, arith, Bool-cases, ap,
}
use rabbit_chain_node.Compute.Types.{
  Hash, Bytes, Script, Metadata, ObjectReadRef, OutputProposal, TxSignature, ComputeTx,
}
use rabbit_chain_node.Compute.Tx.Preimage.{as_bytes}
use rabbit_chain_node.Compute.Gas.{
  add_logic, payload_gas, reads_gas, inputs_gas, proposals_gas, signatures_gas, metadata_gas,
  estimate_tx_gas,
}

abbrev capped : ℕ → ℕ
capped n = min n u64_max

abbrev pub payload_cost : Bytes → ℕ
payload_cost [] = 0
payload_cost (b ∷ bs) = (if b == 0 then 4 else 16) + payload_cost bs

abbrev pub reads_cost : List Hash → List ObjectReadRef → ℕ
reads_cost seen [] = 0
reads_cost seen (r ∷ rs) =
    if contains seen r.output_id
    then 100 + reads_cost seen rs
    else 2100 + reads_cost (r.output_id ∷ seen) rs

abbrev pub logic_bytes : Option Script → ℕ
logic_bytes none = 0
logic_bytes (some logic) = length logic.code

abbrev pub proposals_cost : List OutputProposal → ℕ
proposals_cost [] = 0
proposals_cost (p ∷ ps) =
    25000 + 16 * (length p.state + length p.lock.code + logic_bytes p.logic) + proposals_cost ps

abbrev pub metadata_bytes : Metadata → ℕ
metadata_bytes [] = 0
metadata_bytes ((key, value) ∷ m) = length (as_bytes key) + length value + metadata_bytes m

-- The cost of a transaction by the schedule of the gas table, in unbounded numbers.
abbrev pub exact_gas : ComputeTx → ℕ
exact_gas tx =
    26000
    + payload_cost tx.payload
    + reads_cost [] tx.read_set
    + 2100 * length tx.input_set
    + proposals_cost tx.output_proposals
    + 3000 * length tx.witness.signatures
    + 16 * metadata_bytes tx.metadata

payload_gas-capped : (bs : Bytes) (n : ℕ) → payload_gas bs (capped n) ≡ capped (n + payload_cost bs)
unfolding payload_gas
payload_gas-capped [] n = omega arith
payload_gas-capped (b ∷ bs) n = elim (Bool-cases (b == 0)) [
  | inl z ↦ rw z (ap (payload_gas bs) (omega arith) ∙ payload_gas-capped bs (n + 4) ∙ omega arith)
  | inr z ↦ rw z (ap (payload_gas bs) (omega arith) ∙ payload_gas-capped bs (n + 16) ∙ omega arith)
]

reads_gas-capped :
    (seen : List Hash) (rs : List ObjectReadRef) (n : ℕ)
    → reads_gas seen rs (capped n) ≡ capped (n + reads_cost seen rs)
unfolding reads_gas
reads_gas-capped seen [] n = omega arith
reads_gas-capped seen (r ∷ rs) n = elim (Bool-cases (contains seen r.output_id)) [
  | inl z ↦
      rw z (ap (reads_gas seen rs) (omega arith) ∙ reads_gas-capped seen rs (n + 100) ∙ omega arith)
  | inr z ↦ rw z (
      ap (reads_gas (r.output_id ∷ seen) rs) (omega arith)
      ∙ reads_gas-capped (r.output_id ∷ seen) rs (n + 2100)
      ∙ omega arith)
]

inputs_gas-capped :
    (ids : List Hash) (n : ℕ) → inputs_gas ids (capped n) ≡ capped (n + 2100 * length ids)
unfolding inputs_gas
inputs_gas-capped [] n = omega arith
inputs_gas-capped (id ∷ ids) n =
    ap (inputs_gas ids) (omega arith) ∙ inputs_gas-capped ids (n + 2100) ∙ omega arith

add_logic-capped :
    (logic : Option Script) (n : ℕ)
    → add_logic logic (capped n) ≡ capped (n + 16 * logic_bytes logic)
add_logic-capped none n = omega arith
add_logic-capped (some logic) n = omega arith

proposals_gas-capped :
    (ps : List OutputProposal) (n : ℕ)
    → proposals_gas ps (capped n) ≡ capped (n + proposals_cost ps)
unfolding proposals_gas
proposals_gas-capped [] n = omega arith
proposals_gas-capped (p ∷ ps) n =
    let m = n + 25000 + 16 * (length p.state + length p.lock.code) in
    ap (λ k. proposals_gas ps (add_logic p.logic k)) (omega arith)
    ∙ ap (proposals_gas ps) (add_logic-capped p.logic m)
    ∙ proposals_gas-capped ps (m + 16 * logic_bytes p.logic)
    ∙ omega arith

signatures_gas-capped :
    (sigs : List TxSignature) (n : ℕ)
    → signatures_gas sigs (capped n) ≡ capped (n + 3000 * length sigs)
unfolding signatures_gas
signatures_gas-capped [] n = omega arith
signatures_gas-capped (sig ∷ sigs) n =
    ap (signatures_gas sigs) (omega arith) ∙ signatures_gas-capped sigs (n + 3000) ∙ omega arith

metadata_gas-capped :
    (m : Metadata) (n : ℕ) → metadata_gas m (capped n) ≡ capped (n + 16 * metadata_bytes m)
unfolding metadata_gas
metadata_gas-capped [] n = omega arith
metadata_gas-capped ((key, value) ∷ m) n =
    ap (metadata_gas m) (omega arith)
    ∙ metadata_gas-capped m (n + 16 * (length (as_bytes key) + length value))
    ∙ omega arith

-- The estimate of every transaction is its exact cost, or the largest `u64` if that is less.
pub estimate_tx_gas-exact : (tx : ComputeTx) → estimate_tx_gas tx ≡ min (exact_gas tx) u64_max
unfolding estimate_tx_gas
estimate_tx_gas-exact tx =
    let p = 21000 + payload_cost tx.payload in
    let r = p + reads_cost [] tx.read_set in
    let i = r + 2100 * length tx.input_set in
    let o = i + proposals_cost tx.output_proposals in
    let w = o + 5000 + 3000 * length tx.witness.signatures in
    let e₁ = payload_gas-capped tx.payload 21000 in
    let e₂ = ap (reads_gas [] tx.read_set) e₁ ∙ reads_gas-capped [] tx.read_set p in
    let e₃ = ap (inputs_gas tx.input_set) e₂ ∙ inputs_gas-capped tx.input_set r in
    let e₄ =
      ap (proposals_gas tx.output_proposals) e₃ ∙ proposals_gas-capped tx.output_proposals i in
    let e₅ : sat_add_u64
          (proposals_gas tx.output_proposals
            (inputs_gas tx.input_set (reads_gas [] tx.read_set (payload_gas tx.payload 21000))))
          5000
        ≡ capped (o + 5000) =
      omega arith in
    let e₆ =
      ap (signatures_gas tx.witness.signatures) e₅
      ∙ signatures_gas-capped tx.witness.signatures (o + 5000) in
    ap (metadata_gas tx.metadata) e₆ ∙ metadata_gas-capped tx.metadata w ∙ omega arith
