-- ===== src/Account.antt =====
-- `U256` (crates/rabbitcore/src/account/account.rs): a word of 32 bytes, the most significant first. Where
-- the source panics on an index, the functions return `none`.
pub mod Arithmetic
pub mod Shifts
pub mod Division
mod Tests
use rabbit_chain_node.Prelude.{
  ℕ, zero, suc, ◌+◌, ◌-◌, ◌*◌, ◌/◌, ◌%◌, ◌^◌, min, Bool, true, false, not, List, [], ◌∷◌, ◌++◌,
  Option, none, some, ltb, leb, ◌==◌, ◌&&◌, ◌||◌, if◌then◌else◌, length, replicate, unwrap_or,
}
use rabbit_chain_node.Compute.Types.{Bytes}
use rabbit_chain_node.Compute.Tx.Preimage.{to_be_bytes}
use rabbit_chain_node.Compute.Policy.Authorization.{from_be_bytes, drop}

abbrev pub zero_word : Bytes
zero_word = replicate 32 0

-- `from` and `from_u128`: the value is a word of 64 or 128 bits.
abbrev pub from : ℕ → Bytes
from value = replicate 24 0 ++ to_be_bytes 8 value

abbrev pub from_u128 : ℕ → Bytes
from_u128 value = replicate 16 0 ++ to_be_bytes 16 value

abbrev pub one : Bytes
one = replicate 31 0 ++ 1 ∷ []

unfoldable pub as_u64 : Bytes → ℕ
as_u64 word = from_be_bytes 0 (drop 24 word)

unfoldable pub as_u128 : Bytes → ℕ
as_u128 word = from_be_bytes 0 (drop 16 word)

unfoldable pub is_zero : Bytes → Bool
is_zero [] = true
is_zero (b ∷ bytes) = b == 0 && is_zero bytes

-- `copy_from_slice` panics on more than 32 bytes.
unfoldable pub from_big_endian : Bytes → Option Bytes
from_big_endian bytes =
    if leb (length bytes) 32 then some (replicate (32 - length bytes) 0 ++ bytes) else none

-- The loop of `overflowing_add`, which starts at the last byte: the bytes of the sum, and the carry.
unfoldable pub add_loop : Bytes → Bytes → Bytes × ℕ
add_loop (x ∷ xs) (y ∷ ys) =
    let (result, carry) = add_loop xs ys in
    let sum = x + y + carry in (sum % 256 ∷ result, sum / 256)
add_loop _ _ = ([], 0)

unfoldable pub overflowing_add : Bytes → Bytes → Bytes × Bool
overflowing_add a b = let (result, carry) = add_loop a b in (result, not (carry == 0))

-- The loop of `overflowing_sub`. The borrow, 0 or -1 in the source, is 0 or 1; a negative difference is
-- cast to its byte.
unfoldable pub sub_loop : Bytes → Bytes → Bytes × ℕ
sub_loop (x ∷ xs) (y ∷ ys) =
    let (result, borrow) = sub_loop xs ys in
    if ltb x (y + borrow)
    then ((x + 256 - (y + borrow)) % 256 ∷ result, 1)
    else ((x - (y + borrow)) ∷ result, 0)
sub_loop _ _ = ([], 0)

unfoldable pub overflowing_sub : Bytes → Bytes → Bytes × Bool
overflowing_sub a b = let (result, borrow) = sub_loop a b in (result, not (borrow == 0))

unfoldable pub saturating_add : Bytes → Bytes → Bytes
saturating_add a b =
    let (result, overflow) = overflowing_add a b in if overflow then replicate 32 255 else result

unfoldable pub saturating_sub : Bytes → Bytes → Bytes
saturating_sub a b =
    let (result, overflow) = overflowing_sub a b in if overflow then zero_word else result

-- The derived order compares the bytes from the first on.
unfoldable pub word_lt : Bytes → Bytes → Bool
word_lt (x ∷ xs) (y ∷ ys) = ltb x y || (x == y && word_lt xs ys)
word_lt [] (y ∷ ys) = true
word_lt _ [] = false

-- An index beyond the end panics.
unfoldable pub byte_at : ℕ → Bytes → Option ℕ
byte_at i [] = none
byte_at zero (b ∷ bytes) = some b
byte_at (suc i) (b ∷ bytes) = byte_at i bytes

-- `sum += self.0[j] * other.0[i - (31 - j)]` for the `n` indices below `n`, from the last. An index below
-- 0 panics: at once where overflow is checked, and otherwise as an index that is too large.
unfoldable pub mul_row : Bytes → Bytes → ℕ → ℕ → ℕ → Option ℕ
mul_row a b i zero sum = some sum
mul_row a b i (suc j) sum = if ltb (i + j) 31 then none else (elim (byte_at j a) [
  | none ↦ none
  | some x ↦ elim (byte_at (i + j - 31) b) [ none ↦ none | some y ↦ mul_row a b i j (sum + x * y) ]
])

-- The loop over `i`, for the `n` indices below `n`.
unfoldable pub mul_loop : Bytes → Bytes → ℕ → ℕ → Bytes → Option (Bytes × ℕ)
mul_loop a b zero carry result = some (result, carry)
mul_loop a b (suc i) carry result = elim (mul_row a b i (suc i) carry) [
  | none ↦ none
  | some sum ↦ mul_loop a b i (sum / 256) (sum % 256 ∷ result)
]

unfoldable pub overflowing_mul : Bytes → Bytes → Option (Bytes × Bool)
overflowing_mul a b = elim (mul_loop a b 32 0 []) [
  | none ↦ none
  | some (result, carry) ↦ some (result, not (carry == 0))
]

-- The bytes `self.0[s] << k`, each with the high bits of the byte before it. The two parts of a byte share
-- no bit, so their `|` is their sum; for no shift the second is left out.
unfoldable pub shl_bits : ℕ → ℕ → Bytes → Bytes
shl_bits k before [] = []
shl_bits k before (b ∷ bytes) =
    (b * 2 ^ k % 256 + (if k == 0 then 0 else before / 2 ^ (8 - k))) ∷ shl_bits k b bytes

abbrev pub take_bytes : ℕ → Bytes → Bytes
take_bytes zero bytes = []
take_bytes (suc n) [] = []
take_bytes (suc n) (b ∷ bytes) = b ∷ take_bytes n bytes

-- `result[i]` is made from `self.0[i - byte_shift]` and the byte before that.
unfoldable pub shl : Bytes → ℕ → Bytes
shl word shift =
    if leb 256 shift
    then zero_word
    else replicate (shift / 8) 0 ++ take_bytes (32 - shift / 8) (shl_bits (shift % 8) 0 word)

-- `wrapping_add` and `wrapping_sub`
abbrev pub wrapping_add : Bytes → Bytes → Bytes
wrapping_add a b = (overflowing_add a b).0

abbrev pub wrapping_sub : Bytes → Bytes → Bytes
wrapping_sub a b = (overflowing_sub a b).0

-- `(self.0[i / 8] >> (7 - (i % 8))) & 1`, for an index below 256
unfoldable pub bit_at : Bytes → ℕ → ℕ
bit_at word i = unwrap_or (byte_at (i / 8) word) 0 / 2 ^ (7 - i % 8) % 2

unfoldable pub add_at : ℕ → ℕ → Bytes → Bytes
add_at i n [] = []
add_at zero n (b ∷ bytes) = (b + n) ∷ bytes
add_at (suc i) n (b ∷ bytes) = b ∷ add_at i n bytes

-- `quotient.0[i / 8] |= 1 << (7 - (i % 8))`: the loop sets each bit once, so the `|` is a sum.
unfoldable pub set_bit : Bytes → ℕ → Bytes
set_bit quotient i = add_at (i / 8) (2 ^ (7 - i % 8)) quotient

-- The remainder after the next bit of the dividend is shifted in.
unfoldable pub next_remainder : Bytes → ℕ → Bytes → Bytes
next_remainder a i remainder =
    let shifted = shl remainder 1 in if bit_at a i == 1 then wrapping_add shifted one else shifted

-- The loop of `div`, with `n` of its 256 rounds left.
unfoldable pub div_loop : ℕ → Bytes → Bytes → Bytes → Bytes → Bytes
div_loop zero a b quotient remainder = quotient
div_loop (suc n) a b quotient remainder =
    let i = 255 - n in
    let next = next_remainder a i remainder in
    let below = word_lt next b in
    div_loop n a b (if below then quotient else set_bit quotient i)
      (if below then next else wrapping_sub next b)

unfoldable pub div : Bytes → Bytes → Bytes
div a b =
    if is_zero b
    then zero_word
    else (if is_zero a then zero_word else div_loop 256 a b zero_word zero_word)
