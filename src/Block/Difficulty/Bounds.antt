-- ===== src/Block/Difficulty/Bounds.antt =====
-- How far the difficulty moves between blocks.
use rabbit_chain_node.Prelude.{
  ℕ, ◌+◌, ◌-◌, ◌/◌, ◌%◌, ◌^◌, ◌≤◌, ◌≡◌, refl, ap, ◌∙◌, min, max, inl, inr, List, some, u128_max,
  sat_add_u128, sat_mul_u128, unwrap_or, arith, Option-cases,
}
use rabbit_chain_node.Block.{BlockHeader}
use rabbit_chain_node.Block.Difficulty.{
  clamp, step_of, adjust_mining_difficulty, smoothed_recent_block_interval, last,
  calculate_windowed_mining_difficulty, max_mining_difficulty, min_mining_difficulty,
  target_block_interval_secs, difficulty_bootstrap_threshold,
}

-- The parent difficulty that the controller starts from.
abbrev pub parent_of : ℕ → ℕ → ℕ → ℕ
parent_of lowest highest difficulty = min (max (difficulty % 2 ^ 128) lowest) highest

clamp-some : (lo hi x : ℕ) → lo ≤ hi → clamp lo hi x ≡ some (min (max x lo) hi)
unfolding clamp
clamp-some lo hi x h = ground arith

-- The last clamp, around a parent in the range.
step_clamp :
    (p step c lowest highest : ℕ)
    → lowest ≤ p
    → p ≤ highest
    → highest ≤ u128_max
    → (next : ℕ) × (clamp (max (p - step) lowest) (min (sat_add_u128 p step) highest) c ≡ some next)
      × (lowest ≤ next)
      × (next ≤ highest)
      × (next ≤ p + step)
      × (p ≤ next + step)
step_clamp p step c lowest highest low high word =
    let lo = max (p - step) lowest in
    let hi = min (sat_add_u128 p step) highest in
    (
      min (max c lo) hi,
      clamp-some lo hi c (omega arith),
      omega arith,
      omega arith,
      omega arith,
      omega arith,
    )

-- Within a nonempty range of words the controller does not panic. The next difficulty is in the range
-- and differs from the parent's, brought into the range, by one step at most.
pub adjust_mining_difficulty_bounds :
    (difficulty observed target lowest highest threshold : ℕ)
    → lowest ≤ highest
    → highest ≤ u128_max
    → (next : ℕ) × (adjust_mining_difficulty difficulty observed target lowest highest threshold
        ≡ some next)
      × (lowest ≤ next)
      × (next ≤ highest)
      × (next
          ≤ parent_of lowest highest difficulty
            + step_of threshold (parent_of lowest highest difficulty))
      × (parent_of lowest highest difficulty
          ≤ next + step_of threshold (parent_of lowest highest difficulty))
unfolding adjust_mining_difficulty
adjust_mining_difficulty_bounds difficulty observed target lowest highest threshold range word =
    let p = parent_of lowest highest difficulty in
    let candidate = sat_mul_u128 p (max target 1) / max observed 1 in
    let same : min (max (max (difficulty % 2 ^ 128) lowest) lowest) highest ≡ p = omega arith in
    let first : clamp lowest highest (max (difficulty % 2 ^ 128) lowest) ≡ some p =
      clamp-some lowest highest (max (difficulty % 2 ^ 128) lowest) range ∙ ap some same in
    let second = clamp-some lowest highest candidate range in
    rw (first, second, adjust_mining_difficulty)
      (step_clamp p (step_of threshold p) (min (max candidate lowest) highest) lowest highest
        (omega arith) (omega arith) word)

-- Whatever headers it is given, the controller of the chain returns a difficulty from 1 to 1000000000.
pub calculate_windowed_mining_difficulty_bounds :
    (headers : List BlockHeader)
    → (next : ℕ) × (calculate_windowed_mining_difficulty headers ≡ some next)
      × (min_mining_difficulty ≤ next)
      × (next ≤ max_mining_difficulty)
unfolding calculate_windowed_mining_difficulty
calculate_windowed_mining_difficulty_bounds headers = elim (Option-cases (last headers)) [
  | inl empty ↦ rw (empty, calculate_windowed_mining_difficulty) (1, refl, omega arith, omega arith)
  | inr (latest, e) ↦
      let (next, eq, low, high, _, _) =
        adjust_mining_difficulty_bounds latest.difficulty
          (unwrap_or (smoothed_recent_block_interval headers) (max target_block_interval_secs 1))
          target_block_interval_secs min_mining_difficulty max_mining_difficulty
          difficulty_bootstrap_threshold (omega arith) (omega arith) in
      rw (e, calculate_windowed_mining_difficulty) (next, eq, low, high)
]
