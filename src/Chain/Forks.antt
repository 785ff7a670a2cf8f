-- ===== src/Chain/Forks.antt =====
-- Fork choice (crates/rabbitcore/src/blockchain/fork_choice.rs).
use rabbit_chain_node.Prelude.{
  ℕ, ◌≤◌, Bool, List, [], ◌∷◌, Option, none, some, ltb, inl, inr, Bool-cases, if◌then◌else◌, All,
  arith,
}
use rabbit_chain_node.Block.{BlockHeader}
use rabbit_chain_node.Chain.{Block, Blockchain}

-- `max_by` keeps the last of several greatest elements.
unfoldable pub max_by : (BlockHeader → ℕ) → BlockHeader → List BlockHeader → BlockHeader
max_by weight best [] = best
max_by weight best (h ∷ headers) =
    max_by weight (if ltb (weight h) (weight best) then best else h) headers

-- `GhostForkChoice::select_best`, whose `calculate_weight` is the difficulty
unfoldable pub select_heaviest : List BlockHeader → Option BlockHeader
select_heaviest [] = none
select_heaviest (h ∷ headers) = some (max_by (λ x. x.difficulty) h headers)

-- `LongestChainRule::select_best`
unfoldable pub select_longest : List BlockHeader → Option BlockHeader
select_longest [] = none
select_longest (h ∷ headers) = some (max_by (λ x. x.number) h headers)

unfoldable pub needs_reorg : {V : Type 0} → Blockchain V → Block → Bool
needs_reorg chain new_block = ltb chain.best_block.header.difficulty new_block.header.difficulty

heavier :
    (weight : BlockHeader → ℕ) (best h : BlockHeader)
    → (weight best ≤ weight (if ltb (weight h) (weight best) then best else h))
      × (weight h ≤ weight (if ltb (weight h) (weight best) then best else h))
heavier weight best h = elim (Bool-cases (ltb (weight h) (weight best))) [
  | inl less ↦ rw less (omega arith, ground (arith, less))
  | inr more ↦ rw more (ground (arith, more), omega arith)
]

-- No candidate outweighs the selected one.
pub max_by-heaviest :
    (weight : BlockHeader → ℕ) (best : BlockHeader) (headers : List BlockHeader)
    → (weight best ≤ weight (max_by weight best headers))
      × All (λ h. weight h ≤ weight (max_by weight best headers)) headers
unfolding max_by
max_by-heaviest weight best [] = (omega arith, tt)
max_by-heaviest weight best (h ∷ headers) =
    let next = if ltb (weight h) (weight best) then best else h in
    let (first, rest) = max_by-heaviest weight next headers in
    let (kept, passed) = heavier weight best h in
    (omega (arith, kept, first), (omega (arith, passed, first), rest))
