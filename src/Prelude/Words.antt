-- ===== src/Prelude/Words.antt =====
-- Machine words: the largest values, and the saturating and checked operations of Rust's integers.
-- A word is a number, and each operation says what it does at the ends of its range.
use Prim.Native.Nat.{ℕ, ◌+◌, ◌*◌, min}
use mathlib.Core.Option.{Option, none, some}
use rabbit_chain_node.Prelude.Tests.{ltb, if◌then◌else◌}

abbrev pub u32_max : ℕ
u32_max = 4_294_967_295

abbrev pub u64_max : ℕ
u64_max = 18_446_744_073_709_551_615

abbrev pub u128_max : ℕ
u128_max = 340_282_366_920_938_463_463_374_607_431_768_211_455

-- `u64::saturating_add`; `saturating_sub` is the subtraction of ℕ.
abbrev pub sat_add_u64 : ℕ → ℕ → ℕ
sat_add_u64 a b = min (a + b) u64_max

-- `u64::saturating_mul`
abbrev pub sat_mul_u64 : ℕ → ℕ → ℕ
sat_mul_u64 a b = min (a * b) u64_max

-- `u128::saturating_add`
abbrev pub sat_add_u128 : ℕ → ℕ → ℕ
sat_add_u128 a b = min (a + b) u128_max

-- `u128::saturating_mul`
abbrev pub sat_mul_u128 : ℕ → ℕ → ℕ
sat_mul_u128 a b = min (a * b) u128_max

-- `checked_add` of the word whose largest value is `top`
abbrev pub checked_add : ℕ → ℕ → ℕ → Option ℕ
checked_add top a b = if ltb top (a + b) then none else some (a + b)
