-- ===== src/Compute/Gas/Fees.antt =====
-- The fee market: how far the base fee moves, and what a validated fee allows.
use rabbit_chain_node.Prelude.{
  ℕ, ◌+◌, ◌-◌, ◌*◌, ◌/◌, ◌%◌, ◌^◌, ◌≤◌, ◌<◌, ◌≡◌, ◌↔◌, inl, inr, ◌⊎◌, min, max, none, some,
  sat_add_u64, u64_max, arith, mul_mono_left,
}
use native.Mathlib.Decide.{dec_le, dec_lt}
use rabbit_chain_node.Compute.Types.{ComputeTx}
use rabbit_chain_node.Compute.Tx.{max_gas_limit_per_tx}
use rabbit_chain_node.Compute.Gas.{
  max_priority_fee, estimate_tx_gas, calculate_base_fee, validate_tx_fee, effective_tip,
}

-- The quotient that both directions of the adjustment use.
change_bound : (fee delta t : ℕ) → 0 < t → delta ≤ t → fee * delta / (t * 8) ≤ fee / 8
change_bound fee delta t pos small =
    let q = fee * delta / (t * 8) in
    let whole : q * (t * 8) ≤ fee * delta = omega arith in
    let less : fee * delta ≤ fee * t = omega (arith, mul_mono_left delta t fee small) in
    elim (dec_le (q * 8) fee) [
      | yes h ↦ omega arith
      | no h ↦
          let more : (fee + 1) * t ≤ q * 8 * t = mul_mono_left (fee + 1) (q * 8) t (omega arith) in
          absurd (omega arith)
    ]

-- The computation of the base fee fails, by a division by zero, exactly where the parent used gas under a
-- gas limit below 2.
pub calculate_base_fee_total :
    (fee used limit : ℕ) → (calculate_base_fee fee used limit ≡ none) ↔ ((limit < 2) × (0 < used))
unfolding calculate_base_fee
calculate_base_fee_total fee used limit = (λ h. ground arith, λ h. ground arith)

-- The change of the base fee, as the code computes it.
abbrev change_of : ℕ → ℕ → ℕ → ℕ
change_of fee used t = fee * max (used - t) (t - used) / (t * 8) % 2 ^ 64

at_target : (fee used limit : ℕ) → used ≡ limit / 2 → calculate_base_fee fee used limit ≡ some fee
unfolding calculate_base_fee
at_target fee used limit h = ground arith

above_target :
    (fee used limit : ℕ)
    → 2 ≤ limit
    → limit / 2 < used
    → calculate_base_fee fee used limit
      ≡ some (sat_add_u64 fee (max (change_of fee used (limit / 2)) 1))
unfolding calculate_base_fee
above_target fee used limit h above = ground arith

below_target :
    (fee used limit : ℕ)
    → used < limit / 2
    → calculate_base_fee fee used limit ≡ some (fee - change_of fee used (limit / 2))
unfolding calculate_base_fee
below_target fee used limit below = ground arith

change_of_bound : (fee used t : ℕ) → 0 < t → used ≤ 2 * t → change_of fee used t ≤ fee / 8
change_of_bound fee used t pos within =
    let delta = max (used - t) (t - used) in
    let bound : fee * delta / (t * 8) ≤ fee / 8 = change_bound fee delta t pos (omega arith) in
    omega arith

-- Under a parent gas limit of at least 2, and with no more gas used than twice the target, a base fee that
-- fits a `u64` moves by an eighth at most, or by 1 where an eighth is less: the next one lies between the
-- parent's fee less an eighth and the parent's fee plus the greater of an eighth and 1. It is unchanged at
-- the target, it does not rise below it, and above it it rises, unless it is at the largest `u64`.
pub calculate_base_fee_bounds :
    (fee used limit r : ℕ)
    → fee ≤ u64_max
    → 2 ≤ limit
    → used ≤ 2 * (limit / 2)
    → calculate_base_fee fee used limit ≡ some r
    → (fee - fee / 8 ≤ r)
      × (r ≤ fee + max (fee / 8) 1)
      × (((used < limit / 2) × (r ≤ fee))
          ⊎ ((used ≡ limit / 2) × (r ≡ fee))
          ⊎ ((limit / 2 < used) × (min (fee + 1) u64_max ≤ r)))
calculate_base_fee_bounds fee used limit r word some_gas within h =
    let t = limit / 2 in
    let c = change_of fee used t in
    let bound : c ≤ fee / 8 = change_of_bound fee used t (omega arith) within in
    elim (dec_lt t used) [
      | yes above ↦
          let e : r ≡ sat_add_u64 fee (max c 1) = cc (above_target fee used limit some_gas above) in
          (omega arith, omega arith, inr (inr (omega arith)))
      | no not_above ↦ elim (dec_lt used t) [
        | yes below ↦
            let e : r ≡ fee - c = cc (below_target fee used limit below) in
            (omega arith, omega arith, inl (omega arith))
        | no not_below ↦
            let e : r ≡ fee = cc (at_target fee used limit (omega arith)) in
            (omega arith, omega arith, inr (inl (omega arith)))
      ]
    ]

-- An accepted fee is what the rules say: the gas limit covers the estimate and stays below the cap, the
-- priority fee stays below its cap, and the maximum fee covers the base fee and the priority fee, their
-- sum capped at the largest `u64`. Nothing else is accepted.
pub validate_tx_fee_iff :
    (tx : ComputeTx) (base_fee : ℕ)
    → (validate_tx_fee tx base_fee ≡ none) ↔ (
        (estimate_tx_gas tx ≤ tx.gas_limit)
        × (tx.gas_limit ≤ max_gas_limit_per_tx)
        × (tx.priority_fee ≤ max_priority_fee)
        × (min (base_fee + tx.priority_fee) u64_max ≤ tx.max_fee))
unfolding validate_tx_fee
validate_tx_fee_iff tx base_fee = ground arith

-- Under an accepted fee and a base fee that fits a `u64` the miner's tip never exceeds what the sender authorized: the base fee and the
-- tip together stay within the maximum fee, and the tip is the whole priority fee unless the sum of the
-- two overflows a `u64`.
pub effective_tip_within :
    (tx : ComputeTx) (base_fee : ℕ)
    → base_fee ≤ u64_max
    → validate_tx_fee tx base_fee ≡ none
    → (base_fee + effective_tip tx base_fee ≤ tx.max_fee)
      × ((effective_tip tx base_fee ≡ tx.priority_fee) ⊎ (u64_max < base_fee + tx.priority_fee))
unfolding effective_tip
effective_tip_within tx base_fee word accepted =
    let rules = (validate_tx_fee_iff tx base_fee).0 accepted in
    (
      omega arith,
      elim (dec_le (base_fee + tx.priority_fee) u64_max) [
        | yes fits ↦ inl (omega arith)
        | no over ↦ inr (omega arith)
      ],
    )
