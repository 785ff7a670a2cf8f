-- ===== src/Block/Body.antt =====
-- What a body that validates against a header has.
use rabbit_chain_node.Prelude.{
  ◌≡◌, ◌↔◌, ◌⊎◌, refl, true, List, [], ◌∷◌, length, arith, ◌%◌, ◌^◌, ◌+◌, ◌<◌, ◌≤◌,
}
use rabbit_chain_node.Compute.Types.{Hash, ComputeTx}
use rabbit_chain_node.Block.{
  BlockHeader, Receipt, BlockBody, ok, Hashing, receipts_match, compute_transactions_root,
  compute_receipts_root, validate_against_header, compute_hash, validate_header,
}

-- Every transaction has its receipt, in order, and every receipt names the block.
abbrev pub Matched : Hash → List ComputeTx → List Receipt → Type 0
Matched hash [] [] = Unit
Matched hash (tx ∷ txs) (r ∷ rs) =
    (tx.tx_id ≡ r.tx_id) × (r.block_hash ≡ hash) × Matched hash txs rs
Matched hash _ _ = ⊥

module _ (c : Hashing) where
  match_sound :
      (hash : Hash) (txs : List ComputeTx) (rs : List Receipt)
      → length txs ≡ length rs
      → receipts_match c hash txs rs ≡ true
      → Matched hash txs rs
  unfolding receipts_match
  match_sound hash [] [] n h = tt
  match_sound hash [] (r ∷ rs) n h = absurd (omega arith)
  match_sound hash (tx ∷ txs) [] n h = absurd (omega arith)
  match_sound hash (tx ∷ txs) (r ∷ rs) n h =
      (ground arith, ground arith, match_sound hash txs rs (omega arith) (ground arith))

  match_complete :
      (hash : Hash) (txs : List ComputeTx) (rs : List Receipt)
      → Matched hash txs rs
      → (length txs ≡ length rs) × (receipts_match c hash txs rs ≡ true)
  unfolding receipts_match
  match_complete hash [] [] h = (refl, refl)
  match_complete hash [] (r ∷ rs) h = absurd h
  match_complete hash (tx ∷ txs) [] h = absurd h
  match_complete hash (tx ∷ txs) (r ∷ rs) h =
      let (n, rest) = match_complete hash txs rs h.2 in (omega arith, ground arith)

  -- A body is accepted exactly where every transaction has its receipt, in order, every receipt names
  -- the header's hash, and both roots of the header are the roots of the body.
  pub validate_against_header_iff :
      (body : BlockBody) (h : BlockHeader)
      → (validate_against_header c body h ≡ ok tt) ↔ (
          Matched h.hash body.transactions body.receipts
          × (h.transactions_root ≡ compute_transactions_root c body.transactions)
          × (h.receipts_root ≡ compute_receipts_root c body.receipts))
  unfolding validate_against_header
  validate_against_header_iff body h = (
    λ accepted. (
      match_sound h.hash body.transactions body.receipts (ground arith) (ground arith),
      ground arith,
      ground arith,
    ),
    λ (matched, txs, receipts).
        let (n, every) = match_complete h.hash body.transactions body.receipts matched in
        ground arith,
  )

  -- A header is accepted after its parent exactly where it names the parent's hash, cached or computed,
  -- has the next number, a later time, and at most 32 bytes of extra data.
  pub validate_header_iff :
      (h parent : BlockHeader)
      → (validate_header c h parent ≡ ok tt) ↔ (
          (((parent.hash ≡ 0) × (h.parent_hash ≡ compute_hash c parent))
            ⊎ ((0 < parent.hash) × (h.parent_hash ≡ parent.hash)))
          × (h.number ≡ (parent.number + 1) % 2 ^ 256)
          × (parent.timestamp < h.timestamp)
          × (length h.extra_data ≤ 32))
  unfolding validate_header
  validate_header_iff h parent = ground arith
