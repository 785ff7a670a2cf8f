-- ===== src/Account/Shifts.antt =====
-- Where `U256` departs from arithmetic: the product and the shift to the left.
use rabbit_chain_node.Prelude.{
  ℕ, zero, suc, ◌+◌, ◌-◌, ◌*◌, ◌/◌, ◌%◌, ◌^◌, ◌<◌, ◌≡◌, refl, ap, ◌∙◌, inl, inr, [], ◌∷◌, none, ltb,
  length, arith, Bool-cases, Option-cases,
}
use native.Mathlib.Nat.{pow-suc}
use rabbit_chain_node.Compute.Types.{Bytes}
use rabbit_chain_node.Account.{
  byte_at, mul_row, mul_loop, overflowing_mul, shl_bits, take_bytes, shl,
}
use rabbit_chain_node.Account.Arithmetic.{value, IsBytes, IsWord}

-- Below the last row, the row reaches an index below 0.
mul_row-none : (a b : Bytes) (i j sum : ℕ) → i < 31 → mul_row a b i (suc j) sum ≡ none
unfolding mul_row
mul_row-none a b i zero sum low = ground arith
mul_row-none a b i (suc j) sum low = elim (Bool-cases (ltb (i + suc j) 31)) [
  | inl below ↦ rw below refl
  | inr within ↦ elim (Option-cases (byte_at (suc j) a)) [
    | inl outside ↦ ground (arith, within, outside)
    | inr (x, e) ↦ elim (Option-cases (byte_at (i + suc j - 31) b)) [
      | inl outside ↦ ground (arith, within, e, outside)
      | inr (y, f) ↦
          let rest = mul_row-none a b i j (sum + x * y) low in ground (arith, within, e, f, rest)
    ]
  ]
]

-- The product of two words panics, whatever they are.
pub overflowing_mul-none : (a b : Bytes) → overflowing_mul a b ≡ none
unfolding overflowing_mul mul_loop
overflowing_mul-none a b = elim (Option-cases (mul_row a b 31 32 0)) [
  | inl early ↦ ground (arith, early)
  | inr (sum, e) ↦ ground (arith, e, mul_row-none a b 30 30 (sum / 256) (omega arith))
]

shl_bits-none : (before : ℕ) (bytes : Bytes) → IsBytes bytes → shl_bits 0 before bytes ≡ bytes
unfolding shl_bits
shl_bits-none before [] h = refl
shl_bits-none before (b ∷ bytes) h =
    let same : b * 2 ^ 0 % 256 + 0 ≡ b = omega (arith, h.0) in
    rw (same, shl_bits-none b bytes h.1) refl

value-take_bytes :
    (n : ℕ) (bytes : Bytes)
    → length bytes ≡ suc n
    → IsBytes bytes
    → (last : ℕ) × (last < 256)
      × (value bytes ≡ value (take_bytes n bytes) * 256 + last)
      × (length (take_bytes n bytes) ≡ n)
value-take_bytes n [] h bytes = absurd (omega arith)
value-take_bytes zero (b ∷ []) h bytes = (b, bytes.0, omega arith, refl)
value-take_bytes zero (b ∷ c ∷ rest) h bytes = absurd (omega arith)
value-take_bytes (suc n) (b ∷ rest) h bytes =
    let (last, low, e, m) = value-take_bytes n rest (omega arith) bytes.1 in
    let p : b * 256 ^ length rest ≡ b * (256 ^ n * 256) =
      ap (λ k. b * k) (ap (λ k. 256 ^ k) (omega (arith, h)) ∙ pow-suc 256 n) in
    let q : b * 256 ^ length (take_bytes n rest) ≡ b * 256 ^ n = ap (λ k. b * 256 ^ k) m in
    (last, low, omega arith, omega arith)

-- The shift of a word to the left by 8 divides it by 256.
pub shl-divides : (word : Bytes) → IsWord word → value (shl word 8) ≡ value word / 256
unfolding shl
shl-divides word w =
    let (last, low, e, n) = value-take_bytes 31 word w.size w.bytes in
    rw (shl_bits-none 0 word w.bytes) (omega arith)
