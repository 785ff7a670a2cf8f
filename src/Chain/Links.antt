-- ===== src/Chain/Links.antt =====
-- How the stored blocks hang together.
use rabbit_chain_node.Prelude.{
  ℕ, ◌+◌, ◌%◌, ◌^◌, ◌<◌, ◌≡◌, ◌⊎◌, refl, sym, ap, subst, ◌∙◌, inl, inr, none, some, ◌==◌, arith,
  Bool-cases,
}
use mathlib.Core.Option.{some-injective}
use rabbit_chain_node.Prelude.Assoc.{Map, lookup, insert, lookup-insert}
use rabbit_chain_node.Compute.Types.{Hash}
use rabbit_chain_node.Block.{BlockHeader, BlockResult, Hashing, validate_header}
use rabbit_chain_node.State.Executor.{StateExecutor}
use rabbit_chain_node.Chain.{Block, Blockchain, store_block, update_best_block}

-- What a block that is stored under a hash owes to its stored parent.
pub record Follows (blocks : Map Block) (block : Block) : Type 0 where
  pub parent : Block
  pub stored : lookup block.header.parent_hash blocks ≡ some parent
  pub next : block.header.number ≡ (parent.header.number + 1) % 2 ^ 256
  pub later : parent.header.timestamp < block.header.timestamp

pub record IsLinked {V : Type 0} (chain : Blockchain V) : Type 0 where
  pub keyed : (k : Hash) (b : Block) → lookup k chain.blocks ≡ some b → b.header.hash ≡ k
  pub linked :
      (k : Hash) (b : Block)
      → lookup k chain.blocks ≡ some b
      → (b ≡ chain.genesis) ⊎ Follows chain.blocks b
  pub best : lookup chain.best_block.header.hash chain.blocks ≡ some chain.best_block
  pub root : lookup chain.genesis.header.hash chain.blocks ≡ some chain.genesis

-- A header that passes the check against its parent.
pub validate_header-Follows :
    (c : Hashing) (h parent : BlockHeader)
    → validate_header c h parent ≡ BlockResult.ok tt
    → (h.number ≡ (parent.number + 1) % 2 ^ 256) × (parent.timestamp < h.timestamp)
unfolding validate_header
validate_header-Follows c h parent valid = (ground (arith, valid), ground (arith, valid))

-- A block that is stored stays stored when another is added.
lookup-stored :
    (k h : Hash) (b x : Block) (blocks : Map Block)
    → lookup h blocks ≡ none
    → lookup k blocks ≡ some x
    → lookup k (insert h b blocks) ≡ some x
lookup-stored k h b x blocks fresh stored =
    lookup-insert k h b blocks ∙ elim (Bool-cases (h == k)) [
      | inl same ↦
          let e : h ≡ k = ground (arith, same) in
          let gone : lookup k blocks ≡ none = ap (λ j. lookup j blocks) (sym e) ∙ fresh in cc
      | inr other ↦ rw other stored
    ]

Follows-insert :
    (h : Hash) (b x : Block) (blocks : Map Block)
    → lookup h blocks ≡ none
    → Follows blocks x
    → Follows (insert h b blocks) x
Follows-insert h b x blocks fresh f = record {
  parent = f.parent;
  stored = lookup-stored x.header.parent_hash h b f.parent blocks fresh f.stored;
  next = f.next;
  later = f.later;
}

pub found-insert :
    (k h : Hash) (b x : Block) (blocks : Map Block)
    → lookup k (insert h b blocks) ≡ some x
    → ((h ≡ k) × (b ≡ x)) ⊎ (lookup k blocks ≡ some x)
found-insert k h b x blocks found =
    let e = sym (lookup-insert k h b blocks) ∙ found in
    elim (Bool-cases (h == k)) [
      | inl same ↦ inl (ground (arith, same), some-injective b x (sym (rw same refl) ∙ e))
      | inr other ↦ inr (sym (rw other refl) ∙ e)
    ]

module _ {V : Type 0} where
  pub store_block-IsLinked :
      (b : Block) (chain : Blockchain V)
      → lookup b.header.hash chain.blocks ≡ none
      → Follows chain.blocks b
      → IsLinked chain
      → IsLinked (store_block b chain)
  store_block-IsLinked b chain fresh f l = record {
    keyed = λ k x found. elim (found-insert k b.header.hash b x chain.blocks found) [
      | inl (at, same) ↦ ap (λ y. y.header.hash) (sym same) ∙ at
      | inr old ↦ l.keyed k x old
    ];
    linked = λ k x found. elim (found-insert k b.header.hash b x chain.blocks found) [
      | inl (at, same) ↦ inr (
          subst (λ y. Follows (insert b.header.hash b chain.blocks) y) same
            (Follows-insert b.header.hash b b chain.blocks fresh f))
      | inr old ↦ elim (l.linked k x old) [
        | inl first ↦ inl first
        | inr g ↦ inr (Follows-insert b.header.hash b x chain.blocks fresh g)
      ]
    ];
    best =
        lookup-stored chain.best_block.header.hash b.header.hash b chain.best_block chain.blocks
          fresh l.best;
    root =
        lookup-stored chain.genesis.header.hash b.header.hash b chain.genesis chain.blocks fresh
          l.root;
  }

  pub update_best_block-IsLinked :
      (b : Block) (td : ℕ) (chain : Blockchain V)
      → lookup b.header.hash chain.blocks ≡ some b
      → IsLinked chain
      → IsLinked (update_best_block b td chain)
  update_best_block-IsLinked b td chain stored l = record {
    keyed = l.keyed;
    linked = l.linked;
    best = stored;
    root = l.root;
  }

  pub executor-IsLinked :
      (x : StateExecutor V) (chain : Blockchain V)
      → IsLinked chain
      → IsLinked (record chain { state_executor = x })
  executor-IsLinked x chain l = record {
    keyed = l.keyed;
    linked = l.linked;
    best = l.best;
    root = l.root;
  }
