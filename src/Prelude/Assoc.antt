-- ===== src/Prelude/Assoc.antt =====
-- A map from identifiers to values, as an association list: what the source keeps in a `HashMap`.
-- Its laws are in `if` form, so they have no side condition.
use Prim.Native.Nat.{ℕ}
use mathlib.Core.Path.{◌≡◌, refl}
use mathlib.Core.List.{List, [], ◌∷◌}
use mathlib.Core.Option.{Option, none, some}
use native.Mathlib.Omega.{arith}
use rabbit_chain_node.Prelude.Tests.{◌==◌, if◌then◌else◌}

abbrev pub Map {ℓ} : Type ℓ → Type ℓ
Map V = List (ℕ × V)

module _ {ℓ} {V : Type ℓ} where
  unfoldable pub lookup : ℕ → Map V → Option V
  lookup id [] = none
  lookup id ((key, value) ∷ entries) = if key == id then some value else lookup id entries

  -- The value of a key that is present is replaced in place.
  unfoldable pub insert : ℕ → V → Map V → Map V
  insert id value [] = (id, value) ∷ []
  insert id value ((key, old) ∷ entries) =
      if key == id then (id, value) ∷ entries else (key, old) ∷ insert id value entries

  unfoldable pub erase : ℕ → Map V → Map V
  erase id [] = []
  erase id ((key, old) ∷ entries) =
      let rest = erase id entries in if key == id then rest else (key, old) ∷ rest

  pub lookup-insert :
      (j k : ℕ) (v : V) (m : Map V)
      → lookup j (insert k v m) ≡ (if k == j then some v else lookup j m)
  unfolding lookup insert
  lookup-insert j k v [] = refl
  lookup-insert j k v ((i, w) ∷ m) = ground (arith, lookup-insert j k v m)

  pub lookup-erase :
      (j k : ℕ) (m : Map V) → lookup j (erase k m) ≡ (if k == j then none else lookup j m)
  unfolding lookup erase
  lookup-erase j k [] = ground arith
  lookup-erase j k ((i, w) ∷ m) = ground (arith, lookup-erase j k m)
