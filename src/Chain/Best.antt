-- ===== src/Chain/Best.antt =====
-- Which block is the best one.
use rabbit_chain_node.Prelude.{
  ◌^◌, ◌<◌, ◌≡◌, ◌⊎◌, refl, sym, ap, ◌∙◌, inl, inr, ltb, arith, Bool-cases, Option-cases,
}
use rabbit_chain_node.Prelude.Assoc.{lookup}
use rabbit_chain_node.Block.{Hashing}
use rabbit_chain_node.State.Game.{Libraries}
use rabbit_chain_node.State.Blocks.{Environment}
use rabbit_chain_node.Consensus.{calculate_reward, halve, initial_reward}
use rabbit_chain_node.Chain.{
  Block, Blockchain, contains_key, total_of, get_total_difficulty, validate_block, accept_block,
  insert_block,
}
use rabbit_chain_node.Chain.Inserts.{validate_block-frame, Result-cases}

-- The total difficulty of a chain past the genesis block comes from the best block alone.
unfoldable pub IsTracked : {V : Type 0} → Blockchain V → Type 0
IsTracked chain =
    0 < chain.best_block.header.number → chain.total_difficulty ≡ total_of chain.best_block

reward : get_total_difficulty ≡ initial_reward
unfolding calculate_reward halve
reward = refl

-- What an insertion does to the best block and the total.
unfoldable Moved : {V : Type 0} → Block → Blockchain V → Blockchain V → Type 0
Moved b chain after =
    ((after.best_block ≡ chain.best_block) × (after.total_difficulty ≡ chain.total_difficulty))
    ⊎ ((after.best_block ≡ b)
        × (after.total_difficulty ≡ total_of b)
        × (chain.total_difficulty < total_of b))

module _ {V T M P : Type 0} (lib : Libraries V T M P) (env : Environment) (c : Hashing) where
  accept_block-Moved :
      (b : Block) (chain : Blockchain V) → Moved b chain (accept_block lib env c b chain).1
  unfolding accept_block Moved
  accept_block-Moved b chain = elim (Option-cases (lookup b.header.parent_hash chain.blocks)) [
    | inl e ↦ rw (e, accept_block) (inl (refl, refl))
    | inr (parent, e) ↦ elim (Bool-cases (ltb chain.total_difficulty (total_of b))) [
      | inl more ↦ rw (e, more, accept_block) (inr (refl, refl, ground (arith, more)))
      | inr less ↦ rw (e, less, accept_block) (inl (refl, refl))
    ]
  ]

  insert_block-Moved :
      (b : Block) (chain : Blockchain V) → Moved b chain (insert_block lib env c b chain).1
  unfolding insert_block Moved
  insert_block-Moved b chain =
      let (x, same) = validate_block-frame lib env c b chain in
      elim (Bool-cases (contains_key b.header.hash chain.blocks)) [
        | inl known ↦ rw (known, insert_block) (inl (refl, refl))
        | inr fresh ↦ elim (Result-cases (validate_block lib env c b chain).0) [
          | inr (why, e) ↦ rw (fresh, e, same, insert_block) (inl (refl, refl))
          | inl valid ↦
              rw (fresh, valid, same, insert_block)
                (accept_block-Moved b (record chain { state_executor = x }))
        ]
      ]

  -- A tracked chain past the genesis block stays tracked by an insertion, and its best block stays or
  -- becomes the new block, and that only when the new block's own difficulty is larger. The difficulties are
  -- below 2 ^ 128.
  pub insert_block-heavier :
      (b : Block) (chain : Blockchain V)
      → IsTracked chain
      → 0 < chain.best_block.header.number
      → chain.best_block.header.difficulty < 2 ^ 128
      → b.header.difficulty < 2 ^ 128
      → IsTracked (insert_block lib env c b chain).1
        × (((insert_block lib env c b chain).1.best_block ≡ chain.best_block)
            ⊎ (((insert_block lib env c b chain).1.best_block ≡ b)
                × (chain.best_block.header.difficulty < b.header.difficulty)))
  unfolding IsTracked Moved
  insert_block-heavier b chain tracked mined old_fits new_fits =
      let total = tracked mined in
      elim (insert_block-Moved b chain) [
        | inl (best, kept) ↦ (λ _. kept ∙ total ∙ ap total_of (sym best), inl best)
        | inr (best, moved, more) ↦ (
          λ _. moved ∙ ap total_of (sym best),
          inr (best, omega (arith, reward, total, more, old_fits, new_fits)),
        )
      ]
