-- ===== src/State/Game/Battle.antt =====
-- How a battle against a monster runs and ends.
use rabbit_chain_node.Prelude.{
  ℕ, zero, suc, ◌+◌, ◌-◌, ◌*◌, ◌≤◌, ◌<◌, ◌≡◌, ◌⊎◌, refl, inl, inr, max, true, List, some, ltb,
  arith, Bool-cases,
}
use native.Mathlib.Nat.{suc-mul}
use rabbit_chain_node.Compute.Types.{Text}
use rabbit_chain_node.State.Executor.{TeamUnit, ActionKind, ActionInput, EnhanceConfig}
use rabbit_chain_node.State.Game.{
  Libraries, MonsterSpec, Fight, damage, fight_round, goes_on, fight_loop, battle_of, team_atk,
  team_def, team_hp, execute_action, roll_drops,
}

module _ {V T M P : Type 0} (lib : Libraries V T M P) where
  abbrev pub start : MonsterSpec → List TeamUnit → ℕ → Fight P
  start spec team seed = record {
    monster_hp = spec.hp;
    player_hp = team_hp team 0;
    rounds = 0;
    rng = lib.prng seed;
  }

  module _ (atk def : ℕ) (spec : MonsterSpec) where
    -- Where a battle stands after `n` rounds, with no condition asked.
    abbrev pub after_rounds : ℕ → Fight P → Fight P
    after_rounds zero f = f
    after_rounds (suc n) f = after_rounds n (fight_round lib atk def spec f)

    -- Before each of the `n` rounds both sides stand, and fewer than 500 rounds were fought.
    abbrev pub Fought : ℕ → Fight P → Type 0
    Fought zero f = Unit
    Fought (suc n) f =
        (0 < f.player_hp)
        × (0 < f.monster_hp)
        × (f.rounds < 500)
        × Fought n (fight_round lib atk def spec f)

    -- One side has fallen, or 500 rounds were fought.
    abbrev pub IsOver : Fight P → Type 0
    IsOver f = (f.player_hp ≡ 0) ⊎ (f.monster_hp ≡ 0) ⊎ (f.rounds ≡ 500)

    rounds-fight_round : (f : Fight P) → (fight_round lib atk def spec f).rounds ≡ f.rounds + 1
    unfolding fight_round
    rounds-fight_round f = ground arith

    fight_loop-Fought :
        (fuel : ℕ) (f : Fight P)
        → f.rounds + fuel ≡ 500
        → (n : ℕ) × (n ≤ fuel)
          × (fight_loop lib fuel atk def spec f ≡ after_rounds n f)
          × Fought n f
          × IsOver (after_rounds n f)
    unfolding fight_loop
    fight_loop-Fought zero f all = (0, omega arith, refl, tt, inr (inr (omega arith)))
    fight_loop-Fought (suc fuel) f all =
        let next = fight_round lib atk def spec f in
        let one = rounds-fight_round f in
        elim (Bool-cases (goes_on lib f)) [
          | inl on ↦
              let (n, few, same, fought, over) =
                fight_loop-Fought fuel next (omega (arith, one, all)) in
              (
                suc n,
                omega (arith, few),
                rw on same,
                (ground (arith, on), ground (arith, on), ground (arith, on), fought),
                over,
              )
          | inr off ↦ (0, omega arith, rw off refl, tt, ground (arith, off, all))
        ]

  -- A battle is the iteration of rounds from its start, and ends: before each of its rounds, 500 at most,
  -- both sides have hit points and fewer than 500 rounds were fought, and after the last one a side has none
  -- or 500 rounds were fought.
  pub battle_of-Fought :
      (spec : MonsterSpec) (team : List TeamUnit) (seed : ℕ)
      → (n : ℕ) × (n ≤ 500)
        × (battle_of lib spec team seed
            ≡ after_rounds (team_atk team 0) (team_def team 0) spec n (start spec team seed))
        × Fought (team_atk team 0) (team_def team 0) spec n (start spec team seed)
        × IsOver (team_atk team 0) (team_def team 0) spec (battle_of lib spec team seed)
  unfolding battle_of
  battle_of-Fought spec team seed =
      let (n, few, same, fought, over) =
        fight_loop-Fought (team_atk team 0) (team_def team 0) spec 500 (start spec team seed)
          refl in
      (n, few, same, fought, rw same over)

  -- The most that one blow takes.
  abbrev pub most : ℕ → ℕ → ℕ
  most atk def = max (atk - def) 1 + 2

  module _ (bounded : (p : P) → (lib.below 3 p).0 < 3) where
    damage-most : (atk def : ℕ) (p : P) → (damage lib atk def p).0 ≤ most atk def
    unfolding damage
    damage-most atk def p = let small = bounded p in ground (arith, small)

    round-most :
        (atk def : ℕ) (spec : MonsterSpec) (f : Fight P)
        → (f.monster_hp ≤ (fight_round lib atk def spec f).monster_hp + most atk spec.def)
          × (f.player_hp ≤ (fight_round lib atk def spec f).player_hp + most spec.atk def)
    unfolding fight_round
    round-most atk def spec f =
        let hit = damage-most atk spec.def f.rng in
        let blow = damage-most spec.atk def (damage lib atk spec.def f.rng).1 in
        elim (Bool-cases (ltb 0 (f.monster_hp - (damage lib atk spec.def f.rng).0))) [
          | inl stands ↦ rw stands (omega (arith, hit), omega (arith, blow))
          | inr falls ↦ rw falls (omega (arith, hit), omega arith)
        ]

    fight_loop-stalemate :
        (fuel atk def : ℕ) (spec : MonsterSpec) (f : Fight P)
        → f.rounds + fuel ≡ 500
        → fuel * most atk spec.def < f.monster_hp
        → fuel * most spec.atk def < f.player_hp
        → ((fight_loop lib fuel atk def spec f).rounds ≡ 500)
          × (0 < (fight_loop lib fuel atk def spec f).monster_hp)
          × (0 < (fight_loop lib fuel atk def spec f).player_hp)
    unfolding fight_loop
    fight_loop-stalemate zero atk def spec f all monster player =
        (omega (arith, all), omega (arith, monster), omega (arith, player))
    fight_loop-stalemate (suc fuel) atk def spec f all monster player =
        let next = fight_round lib atk def spec f in
        let (hit, blow) = round-most atk def spec f in
        let one = rounds-fight_round atk def spec f in
        let m = suc-mul fuel (most atk spec.def) in
        let p = suc-mul fuel (most spec.atk def) in
        let on : goes_on lib f ≡ true = ground (arith, all, monster, player) in
        rw on (
          fight_loop-stalemate fuel atk def spec next (omega (arith, one, all))
            (omega (arith, hit, m, monster)) (omega (arith, blow, p, player)))

    -- Where 500 of the hardest blows fell neither side, and the generator's `below(3)` is below 3: the battle
    -- ends after 500 rounds with both sides standing, and the action is a win of the player all the same,
    -- with the drops of the monster.
    pub execute_action-stalemate :
        (monster_id : Text) (team : List TeamUnit) (seed : ℕ) (config : EnhanceConfig)
        (monsters : M) (spec : MonsterSpec)
        → lib.monster monsters monster_id ≡ some spec
        → 500 * most (team_atk team 0) spec.def < spec.hp
        → 500 * most spec.atk (team_def team 0) < team_hp team 0
        → (0 < (battle_of lib spec team seed).monster_hp)
          × (execute_action lib ActionKind.battle
                (ActionInput.battle monster_id team)
                seed
                config
                monsters
              ≡ some (record {
                result = lib.battle_result true 500;
                drops = roll_drops lib spec.drops (battle_of lib spec team seed).rng;
              }))
    unfolding execute_action battle_of
    execute_action-stalemate monster_id team seed config monsters spec found monster player =
        let (rounds, stands, wins) =
          fight_loop-stalemate 500 (team_atk team 0) (team_def team 0) spec (start spec team seed)
            refl monster player in
        let won : ltb 0 (battle_of lib spec team seed).player_hp ≡ true = ground (arith, wins) in
        (stands, rw (found, won, rounds, execute_action) refl)
