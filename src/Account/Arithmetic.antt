-- ===== src/Account/Arithmetic.antt =====
-- The operations of `U256` on bytes against those of numbers.
use rabbit_chain_node.Prelude.{
  ℕ, subst, suc, ◌+◌, ◌-◌, ◌*◌, ◌/◌, ◌%◌, ◌^◌, ◌≤◌, ◌<◌, ◌≡◌, refl, ap, ◌∙◌, inl, inr, min, [], ◌∷◌,
  ltb, ◌==◌, length, replicate, All, arith, Bool-cases, mul_mono_left,
}
use native.Mathlib.Nat.{pow-suc}
use native.Mathlib.Decide.{dec_le}
use rabbit_chain_node.Compute.Types.{Bytes}
use rabbit_chain_node.State.{u256_max}
use rabbit_chain_node.Account.{
  add_loop, overflowing_add, sub_loop, overflowing_sub, saturating_add, saturating_sub, word_lt,
  zero_word,
}

-- The number that bytes spell, the most significant first.
abbrev pub value : Bytes → ℕ
value [] = 0
value (b ∷ bytes) = b * 256 ^ length bytes + value bytes

abbrev pub IsBytes : Bytes → Type 0
IsBytes bytes = All (λ b. b < 256) bytes

-- The bytes of a `U256`.
pub record IsWord (word : Bytes) : Type 0 where
  pub size : length word ≡ 32
  pub bytes : IsBytes word

value_bounded : (bytes : Bytes) → IsBytes bytes → value bytes < 256 ^ length bytes
value_bounded [] h = omega arith
value_bounded (b ∷ bytes) h =
    let below = value_bounded bytes h.1 in
    let top : b * 256 ^ length bytes ≤ 255 * 256 ^ length bytes =
      mul_mono_left b 255 (256 ^ length bytes) (omega (arith, h.0)) in
    let up = pow-suc 256 (length bytes) in omega arith

add_loop-value :
    (a b : Bytes)
    → length a ≡ length b
    → (value (add_loop a b).0 + (add_loop a b).1 * 256 ^ length a ≡ value a + value b)
      × (length (add_loop a b).0 ≡ length a)
      × IsBytes (add_loop a b).0
unfolding add_loop
add_loop-value [] [] h = (omega arith, refl, tt)
add_loop-value [] (y ∷ ys) h = absurd (omega arith)
add_loop-value (x ∷ xs) [] h = absurd (omega arith)
add_loop-value (x ∷ xs) (y ∷ ys) h =
    let (e, n, bytes) = add_loop-value xs ys (omega arith) in
    let c = (add_loop xs ys).1 in
    let s = x + y + c in
    let p = 256 ^ length xs in
    let same : 256 ^ length ys ≡ p = ap (λ k. 256 ^ k) (omega (arith, h)) in
    let kept : 256 ^ length (add_loop xs ys).0 ≡ p = ap (λ k. 256 ^ k) n in
    let split : (s / 256 * 256 + s % 256) * p ≡ s * p = ap (λ k. k * p) (omega arith) in
    let up = pow-suc 256 (length xs) in
    let lead : s % 256 * 256 ^ length (add_loop xs ys).0 ≡ s % 256 * p =
      ap (λ k. s % 256 * k) kept in
    let lead' : y * 256 ^ length ys ≡ y * p = ap (λ k. y * k) same in
    let carried : s / 256 * 256 ^ suc (length xs) ≡ s / 256 * (p * 256) =
      ap (λ k. s / 256 * k) up in
    (omega arith, omega arith, (omega arith, bytes))

sub_loop-value :
    (a b : Bytes)
    → length a ≡ length b
    → IsBytes a
    → IsBytes b
    → (value (sub_loop a b).0 + value b ≡ value a + (sub_loop a b).1 * 256 ^ length a)
      × (length (sub_loop a b).0 ≡ length a)
      × ((sub_loop a b).1 ≤ 1)
      × IsBytes (sub_loop a b).0
unfolding sub_loop
sub_loop-value [] [] h u v = (omega arith, refl, omega arith, tt)
sub_loop-value [] (y ∷ ys) h u v = absurd (omega arith)
sub_loop-value (x ∷ xs) [] h u v = absurd (omega arith)
sub_loop-value (x ∷ xs) (y ∷ ys) h u v =
    let (e, n, one, bytes) = sub_loop-value xs ys (omega arith) u.1 v.1 in
    let c = (sub_loop xs ys).1 in
    let p = 256 ^ length xs in
    let small : y < 256 = v.0 in
    let low : x < 256 = u.0 in
    let same : y * 256 ^ length ys ≡ y * p =
      ap (λ k. y * k) (ap (λ k. 256 ^ k) (omega (arith, h))) in
    let kept : 256 ^ length (sub_loop xs ys).0 ≡ p = ap (λ k. 256 ^ k) n in
    let up = pow-suc 256 (length xs) in
    elim (Bool-cases (ltb x (y + c))) [
      | inl borrows ↦
          let d = x + 256 - (y + c) in
          let less : x < y + c = ground (arith, borrows) in
          let byte : d % 256 ≡ d = omega arith in
          let difference : (d + y + c) * p ≡ (x + 256) * p = ap (λ k. k * p) (omega arith) in
          let lead : d * 256 ^ length (sub_loop xs ys).0 ≡ d * p = ap (λ k. d * k) kept in
          rw (borrows, byte) (omega arith, omega arith, omega arith, (omega arith, bytes))
      | inr whole ↦
          let d = x - (y + c) in
          let enough : y + c ≤ x = ground (arith, whole) in
          let difference : (d + y + c) * p ≡ x * p = ap (λ k. k * p) (omega arith) in
          let lead : d * 256 ^ length (sub_loop xs ys).0 ≡ d * p = ap (λ k. d * k) kept in
          rw whole (omega arith, omega arith, omega arith, (omega arith, bytes))
    ]

pub word_lt-value :
    (a b : Bytes)
    → length a ≡ length b
    → IsBytes a
    → IsBytes b
    → word_lt a b ≡ ltb (value a) (value b)
unfolding word_lt
word_lt-value [] [] h u v = refl
word_lt-value [] (y ∷ ys) h u v = absurd (omega arith)
word_lt-value (x ∷ xs) [] h u v = absurd (omega arith)
word_lt-value (x ∷ xs) (y ∷ ys) h u v =
    let p = 256 ^ length xs in
    let n : length ys ≡ length xs = omega (arith, h) in
    let same : y * 256 ^ length ys ≡ y * p = ap (λ k. y * 256 ^ k) n in
    let a = value_bounded xs u.1 in
    let b : value ys < p = subst (λ k. value ys < 256 ^ k) n (value_bounded ys v.1) in
    let rest = word_lt-value xs ys (omega (arith, h)) u.1 v.1 in
    elim (dec_le (x + 1) y) [
      | yes less ↦
          let up : (x + 1) * p ≤ y * p = mul_mono_left (x + 1) y p less in
          let total : x * p + value xs < y * 256 ^ length ys + value ys = omega arith in
          ground (arith, total, less)
      | no more ↦ elim (dec_le (y + 1) x) [
        | yes less ↦
            let up : (y + 1) * p ≤ x * p = mul_mono_left (y + 1) x p less in
            let total : y * 256 ^ length ys + value ys < x * p + value xs = omega arith in
            ground (arith, total, less)
        | no even ↦
            let equal : x ≡ y = omega arith in
            let heads : x * p ≡ y * p = ap (λ k. k * p) equal in ground (arith, rest)
      ]
    ]

power_32 : 256 ^ 32 ≡ u256_max + 1
power_32 = refl

-- A result of as many bytes as a word fits a word.
fits_word :
    (result word : Bytes)
    → IsWord word
    → length result ≡ length word
    → IsBytes result
    → value result < u256_max + 1
fits_word result word w n bytes =
    subst (λ k. value result < k) (ap (λ k. 256 ^ k) (n ∙ w.size) ∙ power_32)
      (value_bounded result bytes)

saturating_add-value :
    (a b : Bytes)
    → IsWord a
    → IsWord b
    → value (saturating_add a b) ≡ min (value a + value b) u256_max
unfolding saturating_add overflowing_add
saturating_add-value a b u v =
    let (sum, size, bytes) = add_loop-value a b (omega (arith, u.size, v.size)) in
    let result_fits = fits_word (add_loop a b).0 a u size bytes in
    let carried : (add_loop a b).1 * 256 ^ length a ≡ (add_loop a b).1 * (u256_max + 1) =
      ap (λ k. (add_loop a b).1 * k) (ap (λ k. 256 ^ k) u.size ∙ power_32) in
    let top : value (replicate 32 255) ≡ u256_max = refl in
    elim (Bool-cases ((add_loop a b).1 == 0)) [
      | inl fits ↦
          let no_carry : (add_loop a b).1 ≡ 0 = ground (arith, fits) in rw fits (omega arith)
      | inr over ↦
          let some_carry : 1 ≤ (add_loop a b).1 = ground (arith, over) in
          rw over (rw top (omega arith))
    ]

saturating_sub-value :
    (a b : Bytes) → IsWord a → IsWord b → value (saturating_sub a b) ≡ value a - value b
unfolding saturating_sub overflowing_sub
saturating_sub-value a b u v =
    let (difference, size, one, bytes) =
      sub_loop-value a b (omega (arith, u.size, v.size)) u.bytes v.bytes in
    let result_fits = fits_word (sub_loop a b).0 a u size bytes in
    let b_fits = fits_word b b v refl v.bytes in
    let borrowed : (sub_loop a b).1 * 256 ^ length a ≡ (sub_loop a b).1 * (u256_max + 1) =
      ap (λ k. (sub_loop a b).1 * k) (ap (λ k. 256 ^ k) u.size ∙ power_32) in
    let bottom : value zero_word ≡ 0 = refl in
    elim (Bool-cases ((sub_loop a b).1 == 0)) [
      | inl fits ↦
          let zero_borrow : (sub_loop a b).1 ≡ 0 = ground (arith, fits) in rw fits (omega arith)
      | inr under ↦
          let full_borrow : (sub_loop a b).1 ≡ 1 = ground (arith, under, one) in
          rw under (omega arith)
    ]

-- Addition and subtraction of two words that saturate are those of numbers, cut off at the largest word
-- and at 0, and the derived order of words is the order of numbers.
pub U256_refines :
    (a b : Bytes)
    → IsWord a
    → IsWord b
    → (value (saturating_add a b) ≡ min (value a + value b) u256_max)
      × (value (saturating_sub a b) ≡ value a - value b)
      × (word_lt a b ≡ ltb (value a) (value b))
U256_refines a b u v = (
  saturating_add-value a b u v,
  saturating_sub-value a b u v,
  word_lt-value a b (omega (arith, u.size, v.size)) u.bytes v.bytes,
)
