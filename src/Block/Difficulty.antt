-- ===== src/Block/Difficulty.antt =====
-- The difficulty controller (crates/rabbitcore/src/block/mod.rs). Of a list of headers it reads the times
-- and the last difficulty; the newest header is the last.
pub mod Bounds
use rabbit_chain_node.Prelude.{
  ℕ, zero, suc, ◌+◌, ◌-◌, ◌*◌, ◌/◌, ◌%◌, ◌^◌, min, max, Bool, true, false, List, [], ◌∷◌, Option,
  none, some, ltb, if◌then◌else◌, length, sat_add_u128, sat_mul_u128, unwrap_or,
}
use rabbit_chain_node.Compute.Policy.Authorization.{drop}
use rabbit_chain_node.Block.{BlockHeader}

abbrev pub difficulty_window_blocks : ℕ
difficulty_window_blocks = 10

abbrev pub target_block_interval_secs : ℕ
target_block_interval_secs = 10

abbrev pub base_mining_difficulty : ℕ
base_mining_difficulty = 1

abbrev pub min_mining_difficulty : ℕ
min_mining_difficulty = 1

abbrev pub max_mining_difficulty : ℕ
max_mining_difficulty = 1_000_000_000

abbrev pub difficulty_bootstrap_threshold : ℕ
difficulty_bootstrap_threshold = 1_000_000

abbrev pub difficulty_bootstrap_step_bps : ℕ
difficulty_bootstrap_step_bps = 40_000

abbrev pub difficulty_max_step_bps : ℕ
difficulty_max_step_bps = 2_500

abbrev pub difficulty_interval_ema_weight : ℕ
difficulty_interval_ema_weight = 4

-- `Ord::clamp`, which panics on an empty range.
unfoldable pub clamp : ℕ → ℕ → ℕ → Option ℕ
clamp lo hi x =
    if ltb hi lo
    then none
    else (if ltb x lo then some lo else (if ltb hi x then some hi else some x))

-- The largest change of a parent difficulty.
abbrev pub step_of : ℕ → ℕ → ℕ
step_of bootstrap_threshold parent =
    let step_bps =
      if ltb parent bootstrap_threshold
      then difficulty_bootstrap_step_bps
      else difficulty_max_step_bps in
    max (sat_mul_u128 parent step_bps / 10_000) 1

unfoldable pub adjust_mining_difficulty : ℕ → ℕ → ℕ → ℕ → ℕ → ℕ → Option ℕ
adjust_mining_difficulty parent_difficulty observed_secs target_secs lowest highest
      bootstrap_threshold =
    elim (clamp lowest highest (max (parent_difficulty % 2 ^ 128) lowest)) [
      | none ↦ none
      | some parent ↦
          let observed = max observed_secs 1 in
          let target = max target_secs 1 in
          elim (clamp lowest highest (sat_mul_u128 parent target / observed)) [
            | none ↦ none
            | some candidate ↦
                let step = step_of bootstrap_threshold parent in
                let min_next = max (parent - step) lowest in
                let max_next = min (sat_add_u128 parent step) highest in
                clamp min_next max_next candidate
          ]
    ]

-- `pair[1].timestamp.saturating_sub(pair[0].timestamp).max(1)`
abbrev pub interval_of : BlockHeader → BlockHeader → ℕ
interval_of earlier later = max (later.timestamp - earlier.timestamp) 1

abbrev pub smooth : Option ℕ → ℕ → ℕ
smooth none interval = interval
smooth (some previous) interval =
    (previous * (difficulty_interval_ema_weight - 1) + interval) / difficulty_interval_ema_weight

-- The loop over the pairs of the window.
unfoldable pub smooth_window : Option ℕ → List BlockHeader → Option ℕ
smooth_window smoothed [] = smoothed
smooth_window smoothed (h ∷ []) = smoothed
smooth_window smoothed (earlier ∷ later ∷ hs) =
    smooth_window (some (smooth smoothed (interval_of earlier later))) (later ∷ hs)

abbrev at_least_one : Option ℕ → Option ℕ
at_least_one none = none
at_least_one (some interval) = some (max interval 1)

unfoldable pub smoothed_recent_block_interval : List BlockHeader → Option ℕ
smoothed_recent_block_interval headers =
    let window_len = min (length headers) difficulty_window_blocks in
    if ltb window_len 2
    then none
    else at_least_one (smooth_window none (drop (length headers - window_len) headers))

abbrev pub last {ℓ} : {A : Type ℓ} → List A → Option A
last [] = none
last (x ∷ []) = some x
last (x ∷ y ∷ xs) = last (y ∷ xs)

unfoldable pub calculate_windowed_mining_difficulty : List BlockHeader → Option ℕ
calculate_windowed_mining_difficulty headers = elim (last headers) [
  | none ↦ some base_mining_difficulty
  | some latest ↦
      adjust_mining_difficulty latest.difficulty
        (unwrap_or (smoothed_recent_block_interval headers) (max target_block_interval_secs 1))
        target_block_interval_secs min_mining_difficulty max_mining_difficulty
        difficulty_bootstrap_threshold
]
