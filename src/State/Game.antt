-- ===== src/State/Game.antt =====
-- The rules of the game that the block executor recomputes (game.rs). `Libraries` holds what the crates
-- serde_json, shanhai-core, zk and hex compute; `V` is the type of JSON values, `T` of a pair of teams,
-- `M` of a table of monsters, `P` of a generator of random numbers.
pub mod Battle
use rabbit_chain_node.Prelude.{
  ℕ, zero, suc, ◌+◌, ◌-◌, max, Bool, true, false, List, [], ◌∷◌, ◌++◌, Option, none, some, ltb,
  ◌==◌, ◌&&◌, if◌then◌else◌, sat_add_u64, sat_mul_u64, unwrap_or,
}
use rabbit_chain_node.Compute.Types.{Hash, Bytes, Text}
use rabbit_chain_node.Compute.Tx.Preimage.{to_be_bytes}
use rabbit_chain_node.Compute.Policy.Authorization.{from_be_bytes}
use rabbit_chain_node.Governance.{Proposal}
use rabbit_chain_node.State.Executor.{
  ActionKind, ActionInput, TeamUnit, ActionDrop, ActionSession, EnhanceConfig, MintPolicy, GameOp,
  tower_reward_shc,
}

-- `DropSpec` and `MonsterSpec` of shanhai-core, as far as a battle reads them.
pub record DropSpec : Type 0 where
  pub item_id : Text
  pub count : ℕ
  pub permille : ℕ
  pub price_shc : ℕ

pub record MonsterSpec : Type 0 where
  pub atk : ℕ
  pub def : ℕ
  pub hp : ℕ
  pub drops : List DropSpec

pub record Libraries (V T M P : Type 0) : Type 0 where
  pub keccak256 : Bytes → Bytes
  pub trim : Text → Text
  pub decode_hex : Text → Option Bytes
  pub parse_op : Bytes → Option (GameOp V)
  pub parse_proposal : Bytes → Option (Proposal V)
  pub parse_mint_policy : Bytes → Option MintPolicy
  pub parse_enhance_config : Bytes → Option EnhanceConfig
  pub parse_monsters : Bytes → Option M
  pub parse_session : Bytes → Option ActionSession
  pub parse_value : Bytes → Option V
  -- `get(key)` followed by `as_str`, `as_u64` or `as_bool`
  pub get_str : Text → V → Option Text
  pub get_u64 : Text → V → Option ℕ
  pub get_bool : Text → V → Option Bool
  -- `from_value` of the field "team", or of null
  pub get_team : V → Option T
  pub same_teams : T → T → Bool
  pub same_value : V → V → Bool
  pub battle_result : Bool → ℕ → V
  pub enhance_result : Bool → ℕ → ℕ → V
  pub default_config : EnhanceConfig
  pub default_monsters : M
  pub monsters_version : M → ℕ
  pub monster : M → Text → Option MonsterSpec
  -- the winner and the number of rounds of `battle::resolve`
  pub resolve : T → ℕ → ℕ × ℕ
  pub roll_with_config : ℕ → ℕ → ℕ → ℕ → EnhanceConfig → Bool × ℕ × ℕ
  pub prng : ℕ → P
  pub below : ℕ → P → ℕ × P
  pub chance : ℕ → P → Bool × P
  -- `from_bytes` and `verify_tower` of the crate zk, on a proof, the growth, the three coefficients of
  -- the difficulty and the claim
  pub verify_tower : Bytes → ℕ → ℕ → ℕ → ℕ → ℕ → Bool

pub record ActionOutcome (V : Type 0) : Type 0 where
  pub result : V
  pub drops : List ActionDrop

abbrev pub first_bytes : ℕ → Bytes → Bytes
first_bytes zero bytes = []
first_bytes (suc n) [] = []
first_bytes (suc n) (b ∷ bytes) = b ∷ first_bytes n bytes

-- `strip_prefix("0x").unwrap_or(..)`
unfoldable pub strip_0x : Text → Text
strip_0x [] = []
strip_0x (a ∷ []) = a ∷ []
strip_0x (a ∷ b ∷ rest) = if a == b'0' && b == b'x' then rest else a ∷ b ∷ rest

abbrev pub max_rounds : ℕ
max_rounds = 500

-- Where a battle stands: the hit points of the monster and of the player, the rounds, the generator.
pub record Fight (P : Type 0) : Type 0 where
  pub monster_hp : ℕ
  pub player_hp : ℕ
  pub rounds : ℕ
  pub rng : P

-- The sums over the team.
unfoldable pub team_atk : List TeamUnit → ℕ → ℕ
team_atk [] total = total
team_atk (u ∷ us) total = team_atk us (sat_add_u64 total u.atk)

unfoldable pub team_def : List TeamUnit → ℕ → ℕ
team_def [] total = total
team_def (u ∷ us) total = team_def us (sat_add_u64 total u.def)

unfoldable pub team_hp : List TeamUnit → ℕ → ℕ
team_hp [] total = total
team_hp (u ∷ us) total = team_hp us (sat_add_u64 total u.hp)

module _ {V T M P : Type 0} (lib : Libraries V T M P) where
  -- `base.saturating_add(rng.below(3))`
  unfoldable pub damage : ℕ → ℕ → P → ℕ × P
  damage atk def rng =
      let (extra, rng') = lib.below 3 rng in (sat_add_u64 (max (atk - def) 1) extra, rng')

  -- One turn of the loop.
  unfoldable pub fight_round : ℕ → ℕ → MonsterSpec → Fight P → Fight P
  fight_round atk def spec f =
      let (hit, rng) = damage atk spec.def f.rng in
      let monster_hp = f.monster_hp - hit in
      if ltb 0 monster_hp
      then (let (blow, rng') = damage spec.atk def rng in
          record {
            monster_hp = monster_hp;
            player_hp = f.player_hp - blow;
            rounds = f.rounds + 1;
            rng = rng';
          })
      else record {
        monster_hp = monster_hp;
        player_hp = f.player_hp;
        rounds = f.rounds + 1;
        rng = rng;
      }

  -- The `while` condition.
  abbrev pub goes_on : Fight P → Bool
  goes_on f = (ltb 0 f.player_hp && ltb 0 f.monster_hp) && ltb f.rounds max_rounds

  -- The loop, on fuel.
  unfoldable pub fight_loop : ℕ → ℕ → ℕ → MonsterSpec → Fight P → Fight P
  fight_loop zero atk def spec f = f
  fight_loop (suc fuel) atk def spec f =
      let next = fight_loop fuel atk def spec (fight_round atk def spec f) in
      if goes_on f then next else f

  unfoldable pub roll_drops : List DropSpec → P → List ActionDrop
  roll_drops [] rng = []
  roll_drops (d ∷ ds) rng =
      let (hit, rng') = lib.chance d.permille rng in
      let rest = roll_drops ds rng' in
      let drop : ActionDrop = record {
        item_id = d.item_id;
        count = d.count;
        price_shc = sat_mul_u64 d.price_shc d.count;
      } in
      if hit then drop ∷ rest else rest

  -- The fuel is the limit on the rounds.
  unfoldable pub battle_of : MonsterSpec → List TeamUnit → ℕ → Fight P
  battle_of spec team seed =
      fight_loop max_rounds (team_atk team 0) (team_def team 0) spec (record {
        monster_hp = spec.hp;
        player_hp = team_hp team 0;
        rounds = 0;
        rng = lib.prng seed;
      })

  -- `none` stands for the error: an unknown monster, or an input of another kind.
  unfoldable pub execute_action :
      ActionKind → ActionInput → ℕ → EnhanceConfig → M → Option (ActionOutcome V)
  execute_action ActionKind.battle (ActionInput.battle monster_id team) seed config monsters =
      elim (lib.monster monsters monster_id) [
        | none ↦ none
        | some spec ↦
            let f = battle_of spec team seed in
            let player_win = ltb 0 f.player_hp in
            some (record {
              result = lib.battle_result player_win f.rounds;
              drops = if player_win then roll_drops spec.drops f.rng else [];
            })
      ]
  execute_action ActionKind.enhance (ActionInput.enhance id level pity stones) seed config
        monsters =
      let (success, new_level, new_pity) = lib.roll_with_config level pity seed stones config in
      some (record { result = lib.enhance_result success new_level new_pity; drops = [] })
  execute_action kind input seed config monsters = none

  -- The low 64 bits of the hash, which the source takes from its first 8 bytes.
  unfoldable pub pvp_combined_seed : ℕ → ℕ → ℕ
  pvp_combined_seed seed_a seed_b =
      from_be_bytes 0 (first_bytes 8 (lib.keccak256 (to_be_bytes 8 seed_a ++ to_be_bytes 8 seed_b)))

  -- `none` stands for the error.
  unfoldable pub verify_tower_claim : ℕ → ℕ → ℕ → ℕ → ℕ → Text → Option ℕ
  verify_tower_claim growth a b c claimed_final proof_hex =
      elim (lib.decode_hex (strip_0x (lib.trim proof_hex))) [
        | none ↦ none
        | some raw ↦
            if lib.verify_tower raw growth a b c claimed_final
            then (let reward = tower_reward_shc claimed_final in
                if reward == 0 then none else some reward)
            else none
      ]
