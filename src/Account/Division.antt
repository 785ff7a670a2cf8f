-- ===== src/Account/Division.antt =====
-- What the shift does to the division of `U256`.
use rabbit_chain_node.Prelude.{
  ℕ, zero, suc, ◌+◌, ◌-◌, ◌*◌, ◌/◌, ◌%◌, ◌^◌, ◌≤◌, ◌<◌, ◌≡◌, refl, sym, ap, ◌∙◌, inl, inr, true, [],
  ◌∷◌, ◌++◌, ◌==◌, length, length-append, replicate, All-append, arith, Bool-cases,
}
use native.Mathlib.Nat.{pow-suc}
use rabbit_chain_node.Compute.Types.{Bytes}
use rabbit_chain_node.Compute.Tx.Preimage.{to_be_bytes}
use rabbit_chain_node.Account.{
  zero_word, one, is_zero, add_loop, overflowing_add, wrapping_add, word_lt, shl, shl_bits, bit_at,
  next_remainder, div_loop, div,
}
use rabbit_chain_node.Account.Arithmetic.{value, IsBytes, IsWord, word_lt-value}

-- The word of one byte.
abbrev pub small : ℕ → Bytes
small c = replicate 31 0 ++ c ∷ []

shl-small : (c : ℕ) → shl (small c) 1 ≡ small (c * 2 % 256)
unfolding shl shl_bits
shl-small c = ap small (omega arith)

add-small : (c : ℕ) → c < 255 → wrapping_add (small c) one ≡ small (c + 1)
unfolding overflowing_add add_loop
add-small c low =
    let none_carried : (c + 1 + 0) / 256 ≡ 0 = omega arith in
    let byte : (c + 1 + 0) % 256 ≡ c + 1 = omega arith in rw (none_carried, byte) refl

-- A remainder of one byte stays one: the shift drops what would leave the last byte.
next_remainder-small :
    (a : Bytes) (i c : ℕ) → (d : ℕ) × (d < 256) × (next_remainder a i (small c) ≡ small d)
unfolding next_remainder
next_remainder-small a i c = elim (Bool-cases (bit_at a i == 1)) [
  | inl set ↦
      (c * 2 % 256 + 1, omega arith, rw (set, shl-small c) (add-small (c * 2 % 256) (omega arith)))
  | inr clear ↦ (c * 2 % 256, omega arith, rw clear (shl-small c))
]

value-small : (c : ℕ) → value (small c) ≡ c
value-small c = omega arith

small-IsWord : (c : ℕ) → c < 256 → IsWord (small c)
small-IsWord c low = record { size = refl; bytes = omega (arith, low) }

-- Against a divisor beyond one byte the quotient is never touched.
div_loop-large :
    (n : ℕ) (a b : Bytes) (c : ℕ)
    → IsWord b
    → 256 ≤ value b
    → c < 256
    → div_loop n a b zero_word (small c) ≡ zero_word
unfolding div_loop
div_loop-large zero a b c w large low = refl
div_loop-large (suc n) a b c w large low =
    let (d, fits, e) = next_remainder-small a (255 - n) c in
    let v = small-IsWord d fits in
    let below : word_lt (small d) b ≡ true =
      word_lt-value (small d) b (sym w.size) v.bytes w.bytes
      ∙ (let size = value-small d in ground (arith, large, fits)) in
    rw (e, below) (div_loop-large n a b d w large fits)

-- The quotient of any word by a word of at least 256 is zero.
pub div-large : (a b : Bytes) → IsWord b → 256 ≤ value b → div a b ≡ zero_word
unfolding div
div-large a b w large =
    let looped = div_loop-large 256 a b 0 w large (omega arith) in
    elim (Bool-cases (is_zero b)) [
      | inl none ↦ rw (none, div) refl
      | inr some ↦ elim (Bool-cases (is_zero a)) [
        | inl nothing ↦ rw (some, nothing, div) refl
        | inr loops ↦ rw (some, loops, div) looped
      ]
    ]

value-append : (bytes : Bytes) (b : ℕ) → value (bytes ++ b ∷ []) ≡ value bytes * 256 + b
value-append [] b = omega arith
value-append (x ∷ xs) b =
    let size : length (xs ++ b ∷ []) ≡ suc (length xs) = omega (arith, length-append xs (b ∷ [])) in
    let lead : x * 256 ^ length (xs ++ b ∷ []) ≡ x * (256 ^ length xs * 256) =
      ap (λ k. x * k) (ap (λ k. 256 ^ k) size ∙ pow-suc 256 (length xs)) in
    omega (arith, lead, value-append xs b)

-- The bytes of a number that fits them spell it.
pub to_be_bytes-value :
    (n v : ℕ)
    → v < 256 ^ n
    → (value (to_be_bytes n v) ≡ v) × (length (to_be_bytes n v) ≡ n) × IsBytes (to_be_bytes n v)
unfolding to_be_bytes
to_be_bytes-value zero v fits = (omega arith, refl, tt)
to_be_bytes-value (suc n) v fits =
    let up = pow-suc 256 n in
    let (e, size, bytes) = to_be_bytes-value n (v / 256) (omega arith) in
    (
      omega (arith, value-append (to_be_bytes n (v / 256)) (v % 256), e),
      omega (arith, length-append (to_be_bytes n (v / 256)) (v % 256 ∷ []), size),
      All-append (λ b. b < 256) (to_be_bytes n (v / 256)) (v % 256 ∷ []) bytes (omega arith, tt),
    )
