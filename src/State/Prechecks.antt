-- ===== src/State/Prechecks.antt =====
-- The checks of settled actions and of player battles (state/executor.rs). They recompute what the
-- transaction claims, and change nothing.
use rabbit_chain_node.Prelude.{
  ℕ, Bool, true, false, not, List, [], ◌∷◌, Option, none, some, ◌==◌, ◌&&◌, ◌||◌, list_eq,
  unwrap_or,
}
use rabbit_chain_node.Compute.Types.{Hash, Text, ComputeTx}
use rabbit_chain_node.Compute.Store.{get_output, get_latest_output_by_object}
use rabbit_chain_node.Compute.Policy.Authorization.{from_be_bytes}
use rabbit_chain_node.State.Executor.{
  GameOp, ActionKind, ActionDrop, ActionSession, EnhanceConfig, missing_session, session_not_found,
  invalid_session, session_mismatch, session_settled, enhance_config_not_found,
  monster_config_not_found, invalid_enhance_config, invalid_monster_config, stale_enhance_rules,
  stale_monster_rules, action_rejected, claimed_result_mismatch, claimed_drops_mismatch,
  two_commitments, commitment_not_found, commitment_consumed, invalid_commitment, not_revealed,
  invalid_team, teams_differ, winner_mismatch, rounds_mismatch, Result, ok, err, ◌>>=◌, required,
  refuse_if, StateExecutor,
}
use rabbit_chain_node.State.Game.{Libraries, execute_action, pvp_combined_seed}
use rabbit_chain_node.State.Governed.{first_input}
use rabbit_chain_node.State.Rewards.{differs, kind_key}
use rabbit_chain_node.State.Payments.{game_op, enhance_config_object_id}

-- "shanhai/config/monsters"
abbrev monster_config_name : Text
monster_config_name =
    b's' ∷ b'h' ∷ b'a' ∷ b'n' ∷ b'h' ∷ b'a' ∷ b'i' ∷ b'/' ∷ b'c' ∷ b'o' ∷ b'n' ∷ b'f' ∷ b'i' ∷ b'g'
    ∷ b'/' ∷ b'm' ∷ b'o' ∷ b'n' ∷ b's' ∷ b't' ∷ b'e' ∷ b'r' ∷ b's' ∷ []

-- "pvp_id"
abbrev pvp_id_key : Text
pvp_id_key = b'p' ∷ b'v' ∷ b'p' ∷ b'_' ∷ b'i' ∷ b'd' ∷ []

-- "revealed"
abbrev revealed_key : Text
revealed_key = b'r' ∷ b'e' ∷ b'v' ∷ b'e' ∷ b'a' ∷ b'l' ∷ b'e' ∷ b'd' ∷ []

-- "seed"
abbrev seed_key : Text
seed_key = b's' ∷ b'e' ∷ b'e' ∷ b'd' ∷ []

-- "pvp_commit"
abbrev pvp_commit : Text
pvp_commit = b'p' ∷ b'v' ∷ b'p' ∷ b'_' ∷ b'c' ∷ b'o' ∷ b'm' ∷ b'm' ∷ b'i' ∷ b't' ∷ []

-- `Vec<ActionDrop>` with the derived equality
unfoldable pub same_drops : List ActionDrop → List ActionDrop → Bool
same_drops [] [] = true
same_drops (d ∷ ds) (c ∷ cs) =
    list_eq d.item_id c.item_id
    && (d.count == c.count && (d.price_shc == c.price_shc && same_drops ds cs))
same_drops _ _ = false

abbrev is_revealed : Option Bool → Bool
is_revealed (some true) = true
is_revealed _ = false

module _ {V T M P : Type 0} (lib : Libraries V T M P) where
  -- The rules of the chain, in the version that the session was opened under.
  unfoldable pub rules_of : ActionSession → StateExecutor V → Result (EnhanceConfig × M)
  rules_of session x = elim session.action_type [
    | ActionKind.enhance ↦
        required (get_latest_output_by_object (enhance_config_object_id lib) x.compute_store)
          enhance_config_not_found
        >>= λ obj.
            required (lib.parse_enhance_config obj.state) (invalid_enhance_config obj.state)
            >>= λ config.
                refuse_if (not (session.rules_version == config.version))
                  (stale_enhance_rules session.rules_version config.version)
                >>= λ _. ok (config, lib.default_monsters)
    | ActionKind.battle ↦
        required
          (get_latest_output_by_object (from_be_bytes 0 (lib.keccak256 monster_config_name))
            x.compute_store)
          monster_config_not_found
        >>= λ obj.
            required (lib.parse_monsters obj.state) (invalid_monster_config obj.state)
            >>= λ monsters.
                refuse_if (not (session.rules_version == lib.monsters_version monsters))
                  (stale_monster_rules session.rules_version (lib.monsters_version monsters))
                >>= λ _. ok (lib.default_config, monsters)
  ]

  unfoldable pub open_session : ComputeTx → Text → StateExecutor V → Result ActionSession
  open_session tx session_id x = required (first_input tx) missing_session >>= λ input.
      required (get_output input x.compute_store) session_not_found >>= λ obj.
      required (lib.parse_session obj.state) (invalid_session obj.state) >>= λ session.
      refuse_if (not (list_eq session.session_id session_id)) session_mismatch >>= λ _.
      refuse_if session.settled session_settled >>= λ _. ok session

  unfoldable pub action_check : ComputeTx → GameOp V → StateExecutor V → Result (Unit {0})
  action_check tx (GameOp.action_settle session_id seed claimed drops) x =
      open_session tx session_id x >>= λ session. rules_of session x >>= λ (config, monsters).
      required (execute_action lib session.action_type session.inputs seed config monsters)
        (action_rejected session.action_type session.inputs)
      >>= λ outcome.
          refuse_if (not (lib.same_value outcome.result claimed)) claimed_result_mismatch >>= λ _.
          refuse_if (not (same_drops outcome.drops drops)) claimed_drops_mismatch
  action_check tx op x = ok tt

  unfoldable pub apply_action_effects : ComputeTx → StateExecutor V → Result (Unit {0})
  apply_action_effects tx x = elim (game_op lib tx) [
    | none ↦ ok tt
    | some op ↦ action_check tx op x
  ]

  -- The seed and the teams of one commitment that was revealed.
  unfoldable pub read_commitment : Text → Hash → StateExecutor V → Result (ℕ × T)
  read_commitment pvp_id id x =
      required (get_output id x.compute_store) commitment_not_found >>= λ obj.
      refuse_if obj.spent commitment_consumed >>= λ _.
      required (lib.parse_value obj.state) (invalid_commitment obj.state) >>= λ state.
      refuse_if
        (differs (lib.get_str kind_key state) pvp_commit
          || (differs (lib.get_str pvp_id_key state) pvp_id
              || not (is_revealed (lib.get_bool revealed_key state))))
        not_revealed
      >>= λ _. required (lib.get_team state) (invalid_team obj.state) >>= λ team.
          ok (unwrap_or (lib.get_u64 seed_key state) 0, team)

  -- The loop over the two inputs, and the battle of the combined seed.
  unfoldable pub settle_pair : Text → ℕ → ℕ → List Hash → StateExecutor V → Result (Unit {0})
  settle_pair pvp_id claimed_winner claimed_rounds (a ∷ b ∷ []) x =
      read_commitment pvp_id a x >>= λ (seed_a, teams).
      read_commitment pvp_id b x >>= λ (seed_b, others).
      refuse_if (not (lib.same_teams teams others)) teams_differ >>= λ _.
      let (winner, rounds) = lib.resolve teams (pvp_combined_seed lib seed_a seed_b) in
      refuse_if (not (winner == claimed_winner)) (winner_mismatch claimed_winner winner) >>= λ _.
      refuse_if (not (rounds == claimed_rounds)) (rounds_mismatch claimed_rounds rounds)
  settle_pair pvp_id claimed_winner claimed_rounds ids x = err two_commitments

  unfoldable pub pvp_check : ComputeTx → GameOp V → StateExecutor V → Result (Unit {0})
  pvp_check tx (GameOp.pvp_settle pvp_id claimed_winner claimed_rounds) x =
      settle_pair pvp_id claimed_winner claimed_rounds tx.input_set x
  pvp_check tx op x = ok tt

  unfoldable pub apply_pvp_effects : ComputeTx → StateExecutor V → Result (Unit {0})
  apply_pvp_effects tx x = elim (game_op lib tx) [ none ↦ ok tt | some op ↦ pvp_check tx op x ]
