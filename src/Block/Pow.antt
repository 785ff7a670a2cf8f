-- ===== src/Block/Pow.antt =====
-- The proof-of-work target.
use rabbit_chain_node.Prelude.{
  ℕ, zero, suc, ◌+◌, ◌-◌, ◌*◌, ◌/◌, ◌%◌, ◌^◌, ◌≤◌, ◌<◌, ◌≡◌, refl, ap, min, false, ◌==◌, arith,
  mul_mono_left,
}
use native.Mathlib.Nat.{pow-suc}
use native.Mathlib.Decide.{dec_le}
use rabbit_chain_node.Block.{
  BlockHeader, Hashing, ok, max_pow_target, divide_bytes, pow_target_from_difficulty,
  compute_pow_hash, verify_pow,
}

quotient_unique : (n d q r : ℕ) → q * d + r ≡ n → r < d → q ≡ n / d
quotient_unique n d q r h small =
    let p = n / d in
    let whole : p * d ≤ n = omega arith in
    let part : n < (p + 1) * d = omega arith in
    elim (dec_le q p) [
      | yes below ↦ elim (dec_le p q) [
        | yes above ↦ omega arith
        | no less ↦
            let more : (q + 1) * d ≤ p * d = mul_mono_left (q + 1) p d (omega arith) in
            absurd (omega arith)
      ]
      | no more ↦
          let less : (p + 1) * d ≤ q * d = mul_mono_left (p + 1) q d (omega arith) in
          absurd (omega arith)
    ]

pow_pos : (n : ℕ) → 0 < 256 ^ n
pow_pos zero = omega arith
pow_pos (suc n) = omega (arith, pow-suc 256 n, pow_pos n)

-- The long division: after `n` more bytes of ones the quotient is exact.
divide_bytes-exact :
    (n d q r : ℕ)
    → r < d
    → d < 2 ^ 120
    → (s : ℕ) × (s < d) × (divide_bytes n d q r * d + s ≡ (q * d + r) * 256 ^ n + (256 ^ n - 1))
unfolding divide_bytes
divide_bytes-exact zero d q r small word = (r, small, omega arith)
divide_bytes-exact (suc n) d q r small word =
    let v = r * 256 + 255 in
    let fits : v % 2 ^ 128 ≡ v = omega arith in
    let byte : min (v / d) 255 ≡ v / d =
      (let low : r * 256 + 256 ≤ d * 256 = omega arith in
        let q₁ = v / d in
        let part : q₁ * d ≤ v = omega arith in
        elim (dec_le q₁ 255) [
          | yes fine ↦ omega arith
          | no large ↦
              let more : 256 * d ≤ q₁ * d = mul_mono_left 256 q₁ d (omega arith) in
              absurd (omega arith)
        ]) in
    let less : v % d < d = omega arith in
    let whole : v / d * d + v % d ≡ v = omega arith in
    let (s, lt, e) = divide_bytes-exact n d (q * 256 + v / d) (v % d) less word in
    let up = pow-suc 256 n in
    let w = q * d + r in
    let p = 256 ^ n in
    let pos : 0 < p = pow_pos n in
    let grown : (q * 256 + v / d) * d + v % d ≡ w * 256 + 255 = omega arith in
    let total : divide_bytes n d (q * 256 + v / d) (v % d) * d + s ≡ (w * 256 + 255) * p + (p - 1) =
      rw grown at e in
    let scaled : w * 256 ^ suc n ≡ w * (p * 256) = ap (λ k. w * k) up in
    rw (fits, byte) (s, lt, omega arith)

-- The target of a positive difficulty that fits 120 bits is the largest `U256` divided by it, rounded down.
pub pow_target_from_difficulty-exact :
    (d : ℕ) → 0 < d → d < 2 ^ 120 → pow_target_from_difficulty d ≡ max_pow_target / d
unfolding pow_target_from_difficulty
pow_target_from_difficulty-exact d pos word =
    let (s, lt, e) = divide_bytes-exact 32 d 0 0 pos word in
    let q : divide_bytes 32 d 0 0 ≡ max_pow_target / d =
      quotient_unique max_pow_target d (divide_bytes 32 d 0 0) s (omega arith) lt in
    let same : d % 2 ^ 128 ≡ d = omega arith in ground arith

ones : divide_bytes 32 1 0 0 ≡ max_pow_target
unfolding divide_bytes
ones = refl

low_bits_one :
    (difficulty k : ℕ)
    → difficulty ≡ k * 2 ^ 128 + 1
    → pow_target_from_difficulty difficulty ≡ max_pow_target
unfolding pow_target_from_difficulty
low_bits_one difficulty k e =
    let low : difficulty % 2 ^ 128 ≡ 1 = omega arith in
    let pos : (difficulty == 0) ≡ false = ground arith in rw (pos, low) ones

-- A difficulty counts by its low 128 bits: where they spell 1, every proof-of-work hash of 32 bytes meets
-- the target, however large the difficulty is.
pub verify_pow_truncated :
    (c : Hashing) (h : BlockHeader) (k : ℕ)
    → h.difficulty ≡ k * 2 ^ 128 + 1
    → compute_pow_hash c h h.nonce ≤ max_pow_target
    → verify_pow c h ≡ ok tt
unfolding verify_pow
verify_pow_truncated c h k e word =
    let target = low_bits_one h.difficulty k e in
    let pos : (h.difficulty == 0) ≡ false = ground arith in ground arith
