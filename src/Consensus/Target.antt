-- ===== src/Consensus/Target.antt =====
-- The targets of the proof-of-work engine, which rest on the division of `U256`.
use rabbit_chain_node.Prelude.{
  ℕ, zero, suc, ◌*◌, ◌/◌, ◌^◌, ◌%◌, ◌≤◌, ◌<◌, ◌≡◌, refl, ap, ◌∙◌, false, replicate, ◌==◌, arith,
}
use native.Mathlib.Nat.{pow-suc, div-div-eq-div-mul}
use rabbit_chain_node.Compute.Tx.Preimage.{to_be_bytes}
use rabbit_chain_node.Compute.Policy.Authorization.{from_be_bytes}
use rabbit_chain_node.Block
use rabbit_chain_node.Block.{BlockHeader, BlockResult, Hashing, compute_pow_hash, max_pow_target}
use rabbit_chain_node.Block.Pow.{pow_target_from_difficulty-exact}
use rabbit_chain_node.Account.{zero_word}
use rabbit_chain_node.Account.Arithmetic.{IsWord}
use rabbit_chain_node.Account.Division.{div-large, to_be_bytes-value}
use rabbit_chain_node.Consensus.{
  invalid_pow, refused, difficulty_to_target, verify_pow, calculate_reward, halve, initial_reward,
  halving_period,
}

zero_spelled : from_be_bytes 0 zero_word ≡ 0
unfolding from_be_bytes
zero_spelled = refl

-- From 256 on, the target is 0.
difficulty_to_target-large : (d : ℕ) → 256 ≤ d → d < 2 ^ 256 → difficulty_to_target d ≡ 0
unfolding difficulty_to_target
difficulty_to_target-large d large fits =
    let (e, size, bytes) = to_be_bytes-value 32 d (omega (arith, fits)) in
    let word : IsWord (to_be_bytes 32 d) = record { size = size; bytes = bytes } in
    let none = div-large (replicate 32 255) (to_be_bytes 32 d) word (omega (arith, e, large)) in
    let pos : (d == 0) ≡ false = ground (arith, large) in rw (pos, none) zero_spelled

-- A mined block of a difficulty of at least 256 and below 2 ^ 120, whose proof of work is not zero and meets
-- the exact target: `BlockHeader::verify_pow` accepts it, and the engine refuses it.
pub verify_pow-refuses :
    (c : Hashing) (h : BlockHeader)
    → 0 < h.number
    → 256 ≤ h.difficulty
    → h.difficulty < 2 ^ 120
    → 0 < compute_pow_hash c h h.nonce
    → compute_pow_hash c h h.nonce ≤ max_pow_target / h.difficulty
    → (Block.verify_pow c h ≡ BlockResult.ok tt) × (verify_pow c h ≡ refused invalid_pow)
unfolding verify_pow Block.verify_pow
verify_pow-refuses c h mined large fits some met =
    let pos : (h.number == 0) ≡ false = ground (arith, mined) in
    let hard : (h.difficulty == 0) ≡ false = ground (arith, large) in
    let exact = pow_target_from_difficulty-exact h.difficulty (omega (arith, large)) fits in
    let zeroed = difficulty_to_target-large h.difficulty large (omega (arith, fits)) in
    (rw (pos, hard, exact) (ground (arith, met)), rw (pos, hard, zeroed) (ground (arith, some)))

halve-power : (n reward : ℕ) → reward < 2 ^ 128 → halve n reward ≡ reward / 2 ^ n
unfolding halve
halve-power zero reward word = omega arith
halve-power (suc n) reward word =
    let half : reward % 2 ^ 128 / 2 ≡ reward / 2 = omega (arith, word) in
    let power : 2 * 2 ^ n ≡ 2 ^ suc n = omega (arith, pow-suc 2 n) in
    rw half (halve-power n (reward / 2) (omega (arith, word)))
    ∙ div-div-eq-div-mul reward 2 (2 ^ n)
    ∙ ap (λ p. reward / p) power

-- The reward of a block: the first one, halved once for each whole 2,100,000 of its number's low 64 bits,
-- and rounded down.
pub calculate_reward-halves :
    (number : ℕ) → calculate_reward number ≡ initial_reward / 2 ^ (number % 2 ^ 64 / halving_period)
unfolding calculate_reward
calculate_reward-halves number =
    halve-power (number % 2 ^ 64 / halving_period) initial_reward (omega arith)
