-- ===== src/State/TokenConservation.antt =====
-- Transfers, enhancements, fees, tower rewards and sales of drops only move tokens.
use rabbit_chain_node.Prelude.{ℕ, ◌≤◌, ◌≡◌, refl, ap, inl, inr, false, ◌==◌, arith, Option-cases}
use rabbit_chain_node.Compute.Types.{Address, Text, ComputeTx}
use rabbit_chain_node.State.{u256_max, StateDb, native_token, shc_token, insert_account}
use rabbit_chain_node.State.Executor.{
  transfer_signer, tower_signer, sell_signer, Result, ExecutionError, native_transfer, ok, err,
  ◌>>=◌, refuse_if, StateExecutor, GameOp, tower_reward_shc,
}
use rabbit_chain_node.State.Executor.Money.{
  credit_account, debit_account, credit_token, debit_token, debit_treasury, credit_treasury,
  credit_treasury_token,
}
use rabbit_chain_node.State.Game.{Libraries}
use rabbit_chain_node.State.Payments.{
  game_op, payer_of, parse_address_hex, move_token, commit_transfer, commit_enhance, cost_and_payer,
  economy_commit, commit_economy_effects, commit_fee_effects,
}
use rabbit_chain_node.State.Rewards.{
  tower_reward, zk_summary_reward, drop_redeem, shc_sink, pay_out, pay_price, sell_drop_price,
  tower_commit, drop_commit, commit_zk_tower_effects, commit_drop_sell_effects,
}
use rabbit_chain_node.State.Frame.{Result-cases, transferable}
use rabbit_chain_node.State.TokenSupply.{
  token_supply, supply-credit_token, supply-debit_token, debit_token_fails,
}

module _ (tok : ℕ) where
  -- The supply of the token is what it was, where it is at most the largest `U256`.
  abbrev pub Balanced : StateDb → StateDb → Type 0
  Balanced before db =
      token_supply tok before ≤ u256_max → token_supply tok db ≡ token_supply tok before

  moved-Balanced :
      (from to : Address) (token n : ℕ) (db : StateDb)
      → (token == native_token) ≡ false
      → (debit_token from token n db).0 ≡ ok tt
      → Balanced db (credit_token to token n (debit_token from token n db).1)
  moved-Balanced from to token n db other paid bound =
      let taken = supply-debit_token tok from token n db other paid in
      let given =
        supply-credit_token tok to token n (debit_token from token n db).1 other
          (omega (arith, taken, bound)) in
      omega (arith, taken, given)

  refused-Balanced :
      (from : Address) (token n : ℕ) (db : StateDb) (e : ExecutionError)
      → (token == native_token) ≡ false
      → (debit_token from token n db).0 ≡ err e
      → Balanced db (debit_token from token n db).1
  refused-Balanced from token n db e other refused bound =
      ap (λ (d : StateDb). token_supply tok d) (debit_token_fails from token n db e other refused)

  module _ {V T M P : Type 0} (lib : Libraries V T M P) where
    commit_transfer-Balanced :
        (payer : Result Address) (to : Text) (token n : ℕ) (x : StateExecutor V)
        → ((p : Address) → payer ≡ ok p → (token == native_token) ≡ false)
        → Balanced x.state_db (commit_transfer lib payer to token n x).1.state_db
    unfolding commit_transfer move_token
    commit_transfer-Balanced (err failure) to token n x h = λ bound. refl
    commit_transfer-Balanced (ok payer) to token n x h =
        elim (Result-cases (parse_address_hex lib to)) [
          | inr (failure, e) ↦ rw (e, commit_transfer) (λ bound. refl)
          | inl (target, e) ↦ elim (Result-cases (debit_token payer token n x.state_db).0) [
            | inl (done, paid) ↦
                rw (e, commit_transfer, paid, move_token)
                  (moved-Balanced payer target token n x.state_db (h payer refl) paid)
            | inr (failure, refused) ↦
                rw (e, commit_transfer, refused, move_token)
                  (refused-Balanced payer token n x.state_db failure (h payer refl) refused)
          ]
        ]

    commit_enhance-Balanced :
        (r : Result (ℕ × Address)) (x : StateExecutor V)
        → Balanced x.state_db (commit_enhance lib r x).1.state_db
    unfolding commit_enhance credit_treasury_token
    commit_enhance-Balanced (err failure) x = λ bound. refl
    commit_enhance-Balanced (ok (cost, payer)) x =
        elim (Result-cases (debit_token payer shc_token cost x.state_db).0) [
          | inl (done, paid) ↦
              rw (paid, commit_enhance)
                (moved-Balanced payer x.treasury shc_token cost x.state_db refl paid)
          | inr (failure, refused) ↦
              rw (refused, commit_enhance)
                (refused-Balanced payer shc_token cost x.state_db failure refl refused)
        ]

    economy_commit-Balanced :
        (tx : ComputeTx) (op : GameOp V) (x : StateExecutor V)
        → Balanced x.state_db (economy_commit lib tx op x).1.state_db
    unfolding economy_commit
    economy_commit-Balanced tx (GameOp.transfer_token token to n) x =
        commit_transfer-Balanced
          (payer_of lib transfer_signer tx >>= λ a.
            refuse_if (token == native_token) native_transfer >>= λ _. ok a)
          to token n x (transferable lib (payer_of lib transfer_signer tx) token)
    economy_commit-Balanced tx (GameOp.transfer_coin to n) x =
        commit_transfer-Balanced (payer_of lib transfer_signer tx) to shc_token n x (λ p e. refl)
    economy_commit-Balanced tx (GameOp.enhance level) x =
        commit_enhance-Balanced (cost_and_payer lib tx level x) x
    economy_commit-Balanced tx (GameOp.zk_enhance level) x =
        commit_enhance-Balanced (cost_and_payer lib tx level x) x
    economy_commit-Balanced tx op x = λ bound. refl

    pub commit_economy_effects-Balanced :
        (tx : ComputeTx) (x : StateExecutor V)
        → Balanced x.state_db (commit_economy_effects lib tx x).1.state_db
    unfolding commit_economy_effects
    commit_economy_effects-Balanced tx x = elim (Option-cases (game_op lib tx)) [
      | inl e ↦ rw (e, commit_economy_effects) (λ bound. refl)
      | inr (op, e) ↦ rw (e, commit_economy_effects) (economy_commit-Balanced tx op x)
    ]

    pay_out-Balanced :
        (destination memo : Text) (n : ℕ) (r : Result Address) (x : StateExecutor V)
        → Balanced x.state_db (pay_out lib destination memo n r x).1.state_db
    unfolding pay_out debit_treasury
    pay_out-Balanced destination memo n (err failure) x = λ bound. refl
    pay_out-Balanced destination memo n (ok payer) x =
        elim (Result-cases (debit_token x.treasury shc_token n x.state_db).0) [
          | inl (done, paid) ↦
              let moved = moved-Balanced x.treasury payer shc_token n x.state_db refl paid in
              λ bound. ground (arith, paid, moved bound)
          | inr (failure, refused) ↦
              let kept = refused-Balanced x.treasury shc_token n x.state_db failure refl refused in
              λ bound. ground (arith, refused, kept bound)
        ]

    pub commit_fee_effects-Balanced :
        (tx : ComputeTx) (base_fee : ℕ) (x : StateExecutor V)
        → Balanced x.state_db (commit_fee_effects lib tx base_fee x).1.state_db
    unfolding commit_fee_effects credit_treasury credit_account debit_account insert_account
    commit_fee_effects-Balanced tx base_fee x bound = ground arith

    tower_commit-Balanced :
        (tx : ComputeTx) (op : GameOp V) (x : StateExecutor V)
        → Balanced x.state_db (tower_commit lib tx op x).1.state_db
    unfolding tower_commit
    tower_commit-Balanced tx (GameOp.zk_tower_claim g a b c claimed_final proof) x =
        pay_out-Balanced tower_reward zk_summary_reward (tower_reward_shc claimed_final)
          (payer_of lib tower_signer tx) x
    tower_commit-Balanced tx op x = λ bound. refl

    pub commit_zk_tower_effects-Balanced :
        (tx : ComputeTx) (x : StateExecutor V)
        → Balanced x.state_db (commit_zk_tower_effects lib tx x).1.state_db
    unfolding commit_zk_tower_effects
    commit_zk_tower_effects-Balanced tx x = elim (Option-cases (game_op lib tx)) [
      | inl e ↦ rw (e, commit_zk_tower_effects) (λ bound. refl)
      | inr (op, e) ↦ rw (e, commit_zk_tower_effects) (tower_commit-Balanced tx op x)
    ]

    pay_price-Balanced :
        (tx : ComputeTx) (r : Result ℕ) (x : StateExecutor V)
        → Balanced x.state_db (pay_price lib tx r x).1.state_db
    unfolding pay_price
    pay_price-Balanced tx (err failure) x = λ bound. refl
    pay_price-Balanced tx (ok price) x =
        pay_out-Balanced drop_redeem shc_sink price (payer_of lib sell_signer tx) x

    drop_commit-Balanced :
        (tx : ComputeTx) (op : GameOp V) (x : StateExecutor V)
        → Balanced x.state_db (drop_commit lib tx op x).1.state_db
    unfolding drop_commit
    drop_commit-Balanced tx (GameOp.sell_drop session_id item_id) x =
        pay_price-Balanced tx (sell_drop_price lib tx session_id item_id x) x
    drop_commit-Balanced tx op x = λ bound. refl

    pub commit_drop_sell_effects-Balanced :
        (tx : ComputeTx) (x : StateExecutor V)
        → Balanced x.state_db (commit_drop_sell_effects lib tx x).1.state_db
    unfolding commit_drop_sell_effects
    commit_drop_sell_effects-Balanced tx x = elim (Option-cases (game_op lib tx)) [
      | inl e ↦ rw (e, commit_drop_sell_effects) (λ bound. refl)
      | inr (op, e) ↦ rw (e, commit_drop_sell_effects) (drop_commit-Balanced tx op x)
    ]
