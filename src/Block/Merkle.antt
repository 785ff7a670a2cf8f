-- ===== src/Block/Merkle.antt =====
-- The Merkle root: its loop ends, and what it does with a last hash alone.
use rabbit_chain_node.Prelude.{
  ℕ, zero, suc, ◌≤◌, ◌≡◌, refl, ap, ◌∙◌, sym, List, [], ◌∷◌, ◌++◌, length, arith,
}
use rabbit_chain_node.Compute.Types.{Hash}
use rabbit_chain_node.Block.{Hashing, hash_pair, next_level, reduce_levels, compute_merkle_root}

module _ (c : Hashing) where
  next_level-length :
      (x y : Hash) (hs : List Hash) → length (next_level c (x ∷ y ∷ hs)) ≤ suc (length hs)
  unfolding next_level
  next_level-length x y [] = omega arith
  next_level-length x y (z ∷ []) = omega arith
  next_level-length x y (z ∷ w ∷ hs) = omega (arith, next_level-length z w hs)

  -- Fuel beyond the number of hashes changes nothing.
  more_fuel :
      (n m : ℕ) (hs : List Hash)
      → length hs ≤ n
      → length hs ≤ m
      → reduce_levels c n hs ≡ reduce_levels c m hs
  unfolding reduce_levels
  more_fuel n m [] h k = refl
  more_fuel n m (x ∷ []) h k = refl
  more_fuel zero m (x ∷ y ∷ hs) h k = absurd (omega arith)
  more_fuel (suc n) zero (x ∷ y ∷ hs) h k = absurd (omega arith)
  more_fuel (suc n) (suc m) (x ∷ y ∷ hs) h k =
      let shorter = next_level-length x y hs in
      more_fuel n m (next_level c (x ∷ y ∷ hs)) (omega arith) (omega arith)

  -- The fuel is enough: the root of two hashes or more is the root of the level above them.
  pub compute_merkle_root-next_level :
      (x y : Hash) (hs : List Hash)
      → compute_merkle_root c (x ∷ y ∷ hs) ≡ compute_merkle_root c (next_level c (x ∷ y ∷ hs))
  unfolding compute_merkle_root reduce_levels
  compute_merkle_root-next_level x y hs =
      let shorter = next_level-length x y hs in
      more_fuel (suc (length hs)) (length (next_level c (x ∷ y ∷ hs))) (next_level c (x ∷ y ∷ hs))
        (omega arith) (omega arith)

  -- Lists of an even length, by pairs.
  pub data Paired : List Hash → Type 0 where
    done : Paired []
    pair : (x y : Hash) {hs : List Hash} → Paired hs → Paired (x ∷ y ∷ hs)

  next_level-repeated :
      (hs : List Hash) (z : Hash)
      → Paired hs
      → next_level c (hs ++ (z ∷ [])) ≡ next_level c (hs ++ (z ∷ z ∷ []))
  unfolding next_level
  next_level-repeated _ z done = refl
  next_level-repeated _ z (pair x y {hs} p) =
      ap (λ level. hash_pair c x y ∷ level) (next_level-repeated hs z p)

  -- The root does not tell an odd number of hashes, three or more, from the same hashes with the last one
  -- repeated.
  pub compute_merkle_root-repeated :
      (x y z : Hash) (hs : List Hash)
      → Paired hs
      → compute_merkle_root c (x ∷ y ∷ hs ++ (z ∷ []))
        ≡ compute_merkle_root c (x ∷ y ∷ hs ++ (z ∷ z ∷ []))
  compute_merkle_root-repeated x y z hs p =
      compute_merkle_root-next_level x y (hs ++ (z ∷ []))
      ∙ ap (compute_merkle_root c) (next_level-repeated (x ∷ y ∷ hs) z (pair x y p))
      ∙ sym (compute_merkle_root-next_level x y (hs ++ (z ∷ z ∷ [])))
