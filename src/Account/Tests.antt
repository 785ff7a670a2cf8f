-- ===== src/Account/Tests.antt =====
-- Runs of the operations on `U256`.
use rabbit_chain_node.Prelude.{◌+◌, ◌-◌, min, ◌≡◌, refl, [], ◌∷◌, ◌++◌, none, ltb, replicate, arith}
use rabbit_chain_node.Compute.Types.{Bytes}
use rabbit_chain_node.State.{u256_max}
use rabbit_chain_node.Account.{saturating_add, saturating_sub, word_lt, overflowing_mul, one}
use rabbit_chain_node.Account.Arithmetic.{value, IsWord, U256_refines}
use rabbit_chain_node.Account.Shifts.{overflowing_mul-none}

-- 2 ^ 256 - 6, and 513.
abbrev large : Bytes
large = replicate 31 255 ++ 250 ∷ []

abbrev small : Bytes
small = replicate 30 0 ++ 2 ∷ 1 ∷ []

large-IsWord : IsWord large
large-IsWord = record { size = refl; bytes = omega arith }

small-IsWord : IsWord small
small-IsWord = record { size = refl; bytes = omega arith }

U256_refines_example :
    (value (saturating_add large small) ≡ min (value large + value small) u256_max)
    × (value (saturating_sub large small) ≡ value large - value small)
    × (word_lt large small ≡ ltb (value large) (value small))
U256_refines_example = U256_refines large small large-IsWord small-IsWord

overflowing_mul-none_example : overflowing_mul one one ≡ none
overflowing_mul-none_example = overflowing_mul-none one one
