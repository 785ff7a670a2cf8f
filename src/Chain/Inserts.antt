-- ===== src/Chain/Inserts.antt =====
-- What the insertion of blocks keeps.
use rabbit_chain_node.Prelude.{
  ◌≡◌, ◌⊎◌, refl, sym, ap, subst, ◌∙◌, inl, inr, true, false, List, [], ◌∷◌, none, some, ltb, ◌==◌,
  arith, Bool-cases, Option-cases, not,
}
use rabbit_chain_node.Prelude.Assoc.{lookup, insert, lookup-insert}
use rabbit_chain_node.Compute.Types.{Hash}
use rabbit_chain_node.Block.{BlockError, BlockResult, Hashing, validate_header}
use rabbit_chain_node.State.Executor
use rabbit_chain_node.State.Executor.{StateExecutor}
use rabbit_chain_node.State.Game.{Libraries}
use rabbit_chain_node.State.Blocks.{Environment, StateTransition, execute_block}
use rabbit_chain_node.Consensus.{ConsensusError, ConsensusResult, accepted, refused, verify_pow}
use rabbit_chain_node.Chain.{
  Block, Blockchain, BlockchainError, invalid_block, parent_not_found, header_error, Result, ok,
  err, new, store_block, contains_key, has_compute_txs, total_of, settle_block, check_transition,
  validate_block, accept_block, insert_block, insert_blocks, create_genesis_block,
}
use rabbit_chain_node.Chain.Links.{
  IsLinked, Follows, found-insert, validate_header-Follows, store_block-IsLinked,
  update_best_block-IsLinked, executor-IsLinked,
}

pub BlockResult-cases :
    (r : BlockResult (Unit {0}))
    → (r ≡ BlockResult.ok tt) ⊎ ((e : BlockError) × (r ≡ BlockResult.err e))
BlockResult-cases (BlockResult.ok tt) = inl refl
BlockResult-cases (BlockResult.err e) = inr (e, refl)

pub ConsensusResult-cases :
    (r : ConsensusResult) → (r ≡ accepted) ⊎ ((e : ConsensusError) × (r ≡ refused e))
ConsensusResult-cases accepted = inl refl
ConsensusResult-cases (refused e) = inr (e, refl)

check_transition-frame :
    {V : Type 0} (result : Executor.Result StateTransition) (b : Block) (chain : Blockchain V)
    → (check_transition result b chain).1 ≡ chain
unfolding check_transition
check_transition-frame (Executor.Result.err e) b chain = refl
check_transition-frame (Executor.Result.ok t) b chain =
    elim (Bool-cases (not (t.to_root == b.header.state_root))) [
      | inl e ↦ rw e refl
      | inr e ↦ rw e refl
    ]

pub Result-cases : (r : Result (Unit {0})) → (r ≡ ok tt) ⊎ ((e : BlockchainError) × (r ≡ err e))
Result-cases (ok tt) = inl refl
Result-cases (err e) = inr (e, refl)

module _ {V T M P : Type 0} (lib : Libraries V T M P) (env : Environment) (c : Hashing) where
  -- Validation touches nothing of the chain but the executor.
  pub settle_block-frame :
      (b parent : Block) (chain : Blockchain V)
      → (x : StateExecutor V) × ((settle_block lib env c b parent chain).1
          ≡ record chain { state_executor = x })
  unfolding settle_block
  settle_block-frame b parent chain =
      let run =
        execute_block lib env b.header b.body parent.header.state_root chain.state_executor in
      elim (Bool-cases (has_compute_txs b.body)) [
        | inr idle ↦ (chain.state_executor, rw idle refl)
        | inl busy ↦ (
          run.1,
          rw busy (check_transition-frame run.0 b (record chain { state_executor = run.1 })),
        )
      ]

  pub validate_block-frame :
      (b : Block) (chain : Blockchain V)
      → (x : StateExecutor V) × ((validate_block lib env c b chain).1
          ≡ record chain { state_executor = x })
  unfolding validate_block
  validate_block-frame b chain = elim (Option-cases (lookup b.header.parent_hash chain.blocks)) [
    | inl e ↦ (chain.state_executor, rw (e, validate_block) refl)
    | inr (parent, e) ↦ elim (BlockResult-cases (validate_header c b.header parent.header)) [
      | inr (why, e1) ↦ (chain.state_executor, rw (e, e1, validate_block) refl)
      | inl e1 ↦ elim (ConsensusResult-cases (verify_pow c b.header)) [
        | inr (why, e2) ↦ (chain.state_executor, rw (e, e1, e2, validate_block) refl)
        | inl e2 ↦
            let (x, same) = settle_block-frame b parent chain in
            (x, rw (e, e1, e2, validate_block) same)
      ]
    ]
  ]

  -- A valid block follows a stored parent.
  pub validate_block-Follows :
      (b : Block) (chain : Blockchain V)
      → (validate_block lib env c b chain).0 ≡ ok tt
      → Follows chain.blocks b
  unfolding validate_block
  validate_block-Follows b chain valid =
      elim (Option-cases (lookup b.header.parent_hash chain.blocks)) [
        | inl e ↦
            let bad : (validate_block lib env c b chain).0 ≡ err (invalid_block parent_not_found) =
              rw (e, validate_block) refl in
            cc
        | inr (parent, e) ↦ elim (BlockResult-cases (validate_header c b.header parent.header)) [
          | inr (why, e1) ↦
              let bad : (validate_block lib env c b chain).0
                  ≡ err (invalid_block (header_error why)) =
                rw (e, e1, validate_block) refl in
              cc
          | inl e1 ↦
              let (next, later) = validate_header-Follows c b.header parent.header e1 in
              record { parent = parent; stored = e; next = next; later = later }
        ]
      ]

  accept_block-IsLinked :
      (b : Block) (chain : Blockchain V)
      → lookup b.header.hash chain.blocks ≡ none
      → Follows chain.blocks b
      → IsLinked chain
      → IsLinked (accept_block lib env c b chain).1
  unfolding accept_block
  accept_block-IsLinked b chain fresh f l =
      let stored = store_block-IsLinked b chain fresh f l in
      let found : lookup b.header.hash (insert b.header.hash b chain.blocks) ≡ some b =
        lookup-insert b.header.hash b.header.hash b chain.blocks ∙ ground arith in
      elim (Bool-cases (ltb chain.total_difficulty (total_of b))) [
        | inl more ↦
            rw (f.stored, more, accept_block)
              (update_best_block-IsLinked b (total_of b) (store_block b chain) found stored)
        | inr less ↦ rw (f.stored, less, accept_block) stored
      ]

  -- Whether or not a block is valid, the chain stays linked.
  pub insert_block-IsLinked :
      (b : Block) (chain : Blockchain V)
      → IsLinked chain
      → IsLinked (insert_block lib env c b chain).1
  unfolding insert_block contains_key
  insert_block-IsLinked b chain l =
      let (x, same) = validate_block-frame b chain in
      let checked : IsLinked (validate_block lib env c b chain).1 =
        subst IsLinked (sym same) (executor-IsLinked x chain l) in
      elim (Option-cases (lookup b.header.hash chain.blocks)) [
        | inr (old, e) ↦
            let known : contains_key b.header.hash chain.blocks ≡ true =
              rw (e, contains_key) refl in
            rw (known, insert_block) l
        | inl fresh ↦
            let unknown : contains_key b.header.hash chain.blocks ≡ false =
              rw (fresh, contains_key) refl in
            elim (Result-cases (validate_block lib env c b chain).0) [
              | inr (why, e) ↦ rw (unknown, e, insert_block) checked
              | inl valid ↦
                  let f = validate_block-Follows b chain valid in
                  rw (unknown, valid, same, insert_block)
                    (accept_block-IsLinked b (record chain { state_executor = x }) fresh f
                      (executor-IsLinked x chain l))
            ]
      ]

  new-IsLinked : (x : StateExecutor V) → IsLinked (new c x)
  unfolding new lookup insert
  new-IsLinked x =
      let g = create_genesis_block c in
      let found = λ (k : Hash) (b : Block) (e : lookup k (insert g.header.hash g []) ≡ some b).
        found-insert k g.header.hash g b [] e in
      record {
        keyed = λ k b e. elim (found k b e) [
          | inl (at, same) ↦ ap (λ y. y.header.hash) (sym same) ∙ at
          | inr gone ↦ cc
        ];
        linked = λ k b e. elim (found k b e) [ inl (at, same) ↦ inl (sym same) | inr gone ↦ cc ];
        best = lookup-insert g.header.hash g.header.hash g [] ∙ ground arith;
        root = lookup-insert g.header.hash g.header.hash g [] ∙ ground arith;
      }

  insert_blocks-keeps :
      (bs : List Block) (chain : Blockchain V)
      → IsLinked chain
      → IsLinked (insert_blocks lib env c bs chain)
  unfolding insert_blocks
  insert_blocks-keeps [] chain l = l
  insert_blocks-keeps (b ∷ bs) chain l =
      insert_blocks-keeps bs (insert_block lib env c b chain).1 (insert_block-IsLinked b chain l)

  -- A chain that starts with the genesis block stays linked through any sequence of insertions, refused ones
  -- included: every stored block stands under its own hash and, unless it is the genesis block, has a stored
  -- parent whose number is one less, modulo 2 ^ 256, and whose time is earlier; the best block and the
  -- genesis block are stored.
  pub insert_blocks-IsLinked :
      (bs : List Block) (x : StateExecutor V) → IsLinked (insert_blocks lib env c bs (new c x))
  insert_blocks-IsLinked bs x = insert_blocks-keeps bs (new c x) (new-IsLinked x)
