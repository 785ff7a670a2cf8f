-- ===== src/Chain/Labels.antt =====
-- The hash that a block claims.
use rabbit_chain_node.Prelude.{
  ◌≡◌, refl, ap, ◌∙◌, inl, inr, false, Option, none, Option-cases, some, ltb, arith, Bool-cases,
}
use rabbit_chain_node.Prelude.Assoc.{lookup, insert, lookup-insert}
use rabbit_chain_node.Compute.Types.{Hash}
use rabbit_chain_node.Block.{
  BlockHeader, BlockBody, Hashing, validate_header, compute_pow_hash,
  encode_canonical_hash_preimage,
}
use rabbit_chain_node.State.Executor
use rabbit_chain_node.State.Executor.{StateExecutor}
use rabbit_chain_node.State.Game.{Libraries}
use rabbit_chain_node.State.Blocks.{Environment, StateTransition, execute_block}
use rabbit_chain_node.Consensus.{verify_pow}
use rabbit_chain_node.Chain.{
  Block, Blockchain, ok, has_compute_txs, contains_key, total_of, settle_block, check_transition,
  validate_block, accept_block, insert_block,
}
use rabbit_chain_node.Chain.Links.{Follows}
use rabbit_chain_node.Chain.Inserts.{
  BlockResult-cases, ConsensusResult-cases, validate_block-frame, validate_block-Follows,
}

-- The same block under another hash.
abbrev pub relabel : Block → Hash → Block
relabel b hash = record b { header = record b.header { hash = hash } }

check_transition-relabel :
    {V : Type 0} (result : Executor.Result StateTransition) (b : Block) (hash : Hash)
    (chain : Blockchain V)
    → check_transition result (relabel b hash) chain ≡ check_transition result b chain
unfolding check_transition
check_transition-relabel (Executor.Result.err e) b hash chain = refl
check_transition-relabel (Executor.Result.ok t) b hash chain = refl

module _ {V T M P : Type 0} (lib : Libraries V T M P) (env : Environment) (c : Hashing) where
  execute_block-relabel :
      (h : BlockHeader) (hash : Hash) (body : Option BlockBody) (root : Hash) (x : StateExecutor V)
      → execute_block lib env (record h { hash = hash }) body root x
        ≡ execute_block lib env h body root x
  unfolding execute_block
  execute_block-relabel h hash none root x = refl
  execute_block-relabel h hash (some body) root x = refl

  settle_block-relabel :
      (b : Block) (hash : Hash) (parent : Block) (chain : Blockchain V)
      → settle_block lib env c (relabel b hash) parent chain ≡ settle_block lib env c b parent chain
  unfolding settle_block
  settle_block-relabel b hash parent chain =
      let root = parent.header.state_root in
      let run = execute_block-relabel b.header hash b.body root chain.state_executor in
      elim (Bool-cases (has_compute_txs b.body)) [
        | inr idle ↦ rw idle refl
        | inl busy ↦
            rw (busy, run)
              (check_transition-relabel
                (execute_block lib env b.header b.body root chain.state_executor).0 b hash
                (record chain {
                  state_executor =
                      (execute_block lib env b.header b.body root chain.state_executor).1;
                }))
      ]

  validate_block-relabel :
      (b : Block) (hash : Hash) (chain : Blockchain V)
      → validate_block lib env c (relabel b hash) chain ≡ validate_block lib env c b chain
  unfolding validate_block validate_header verify_pow compute_pow_hash
      encode_canonical_hash_preimage
  validate_block-relabel b hash chain =
      elim (Option-cases (lookup b.header.parent_hash chain.blocks)) [
        | inl e ↦ rw (e, validate_block) refl
        | inr (parent, e) ↦ elim (BlockResult-cases (validate_header c b.header parent.header)) [
          | inr (why, e1) ↦ rw (e, e1, validate_block) refl
          | inl e1 ↦ elim (ConsensusResult-cases (verify_pow c b.header)) [
            | inr (why, e2) ↦ rw (e, e1, e2, validate_block) refl
            | inl e2 ↦ rw (e, e1, e2, validate_block) (settle_block-relabel b hash parent chain)
          ]
        ]
      ]

  accept_block-stores :
      (b : Block) (chain : Blockchain V)
      → Follows chain.blocks b
      → lookup b.header.hash (accept_block lib env c b chain).1.blocks ≡ some b
  unfolding accept_block
  accept_block-stores b chain f =
      let found : lookup b.header.hash (insert b.header.hash b chain.blocks) ≡ some b =
        lookup-insert b.header.hash b.header.hash b chain.blocks ∙ ground arith in
      elim (Bool-cases (ltb chain.total_difficulty (total_of b))) [
        | inl more ↦ rw (f.stored, more, accept_block) found
        | inr less ↦ rw (f.stored, less, accept_block) found
      ]

  -- A valid block is stored under whatever fresh hash it claims.
  pub insert_block-any_hash :
      (b : Block) (hash : Hash) (chain : Blockchain V)
      → (validate_block lib env c b chain).0 ≡ ok tt
      → lookup hash chain.blocks ≡ none
      → lookup hash (insert_block lib env c (relabel b hash) chain).1.blocks ≡ some (relabel b hash)
  unfolding insert_block contains_key
  insert_block-any_hash b hash chain valid fresh =
      let r = relabel b hash in
      let (x, same) = validate_block-frame lib env c r chain in
      let unknown : contains_key hash chain.blocks ≡ false = rw (fresh, contains_key) refl in
      let accepted : (validate_block lib env c r chain).0 ≡ ok tt =
        ap (λ v. v.0) (validate_block-relabel b hash chain) ∙ valid in
      let f = validate_block-Follows lib env c r chain accepted in
      rw (unknown, accepted, same, insert_block)
        (accept_block-stores r (record chain { state_executor = x }) f)
