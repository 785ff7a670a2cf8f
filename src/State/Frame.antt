-- ===== src/State/Frame.antt =====
-- What the commits of a block leave alone: the native accounts, but for fees, and the state root.
use rabbit_chain_node.Prelude.{
  ℕ, ◌≡◌, ◌⊎◌, inl, inr, refl, ◌∙◌, false, ◌==◌, arith, Bool-cases, Option-cases,
}
use rabbit_chain_node.Compute.Types.{Address, Text, ComputeTx}
use rabbit_chain_node.State.{native_token, shc_token, set_token_balance}
use rabbit_chain_node.State.Executor.{
  transfer_signer, GameOp, ExecutionError, native_transfer, Result, ok, err, ◌>>=◌, refuse_if,
  StateExecutor,
}
use rabbit_chain_node.State.Executor.Money.{
  credit_token, debit_token, take_token, with_db, credit_treasury_token,
}
use rabbit_chain_node.State.Game.{Libraries}
use rabbit_chain_node.State.Payments.{
  game_op, payer_of, parse_address_hex, move_token, commit_transfer, commit_enhance, cost_and_payer,
  economy_commit, commit_economy_effects,
}

pub Result-cases {ℓ} :
    {A : Type ℓ} (r : Result A) → ((a : A) × (r ≡ ok a)) ⊎ ((e : ExecutionError) × (r ≡ err e))
Result-cases (ok a) = inl (a, refl)
Result-cases (err e) = inr (e, refl)

-- The native accounts, the state root and the treasury's address stay.
pub record Framed {V : Type 0} (x x' : StateExecutor V) : Type 0 where
  pub accounts : x'.state_db.accounts ≡ x.state_db.accounts
  pub state_root : x'.state_db.state_root ≡ x.state_db.state_root
  pub treasury : x'.treasury ≡ x.treasury

module _ {V : Type 0} where
  pub framed : (x : StateExecutor V) → Framed x x
  framed x = record { accounts = refl; state_root = refl; treasury = refl }

  pub Framed-trans : (a b c : StateExecutor V) → Framed a b → Framed b c → Framed a c
  Framed-trans a b c f g = record {
    accounts = g.accounts ∙ f.accounts;
    state_root = g.state_root ∙ f.state_root;
    treasury = g.treasury ∙ f.treasury;
  }

  pub credit_token-Framed :
      (to : Address) (token amount : ℕ) (x : StateExecutor V)
      → (token == native_token) ≡ false
      → Framed x (with_db (credit_token to token amount x.state_db) x)
  unfolding credit_token set_token_balance
  credit_token-Framed to token amount x h = record {
    accounts = ground arith;
    state_root = ground arith;
    treasury = refl;
  }

  pub take_token-Framed :
      (from : Address) (token amount : ℕ) (x : StateExecutor V)
      → (token == native_token) ≡ false
      → Framed x (take_token from token amount x).1
  unfolding debit_token set_token_balance
  take_token-Framed from token amount x h = record {
    accounts = ground arith;
    state_root = ground arith;
    treasury = refl;
  }

module _ {V T M P : Type 0} (lib : Libraries V T M P) where
  move_token-Framed :
      (from to : Address) (token amount : ℕ) (x : StateExecutor V)
      → (token == native_token) ≡ false
      → Framed x (move_token lib from to token amount x).1
  unfolding move_token
  move_token-Framed from to token amount x h =
      let x' = (take_token from token amount x).1 in
      let debited = take_token-Framed from token amount x h in
      elim (Result-cases (debit_token from token amount x.state_db).0) [
        | inl (done, e) ↦
            rw (e, move_token)
              (Framed-trans x x' (with_db (credit_token to token amount x'.state_db) x') debited
                (credit_token-Framed to token amount x' h))
        | inr (failure, e) ↦ rw (e, move_token) debited
      ]

  commit_transfer-Framed :
      (payer : Result Address) (to : Text) (token amount : ℕ) (x : StateExecutor V)
      → ((p : Address) → payer ≡ ok p → (token == native_token) ≡ false)
      → Framed x (commit_transfer lib payer to token amount x).1
  unfolding commit_transfer
  commit_transfer-Framed (err failure) to token amount x h = framed x
  commit_transfer-Framed (ok payer) to token amount x h =
      elim (Result-cases (parse_address_hex lib to)) [
        | inl (target, e) ↦
            rw (e, commit_transfer) (move_token-Framed payer target token amount x (h payer refl))
        | inr (failure, e) ↦ rw (e, commit_transfer) (framed x)
      ]

  commit_enhance-Framed :
      (r : Result (ℕ × Address)) (x : StateExecutor V) → Framed x (commit_enhance lib r x).1
  unfolding commit_enhance credit_treasury_token
  commit_enhance-Framed (err failure) x = framed x
  commit_enhance-Framed (ok (cost, payer)) x =
      let x' = (take_token payer shc_token cost x).1 in
      let debited = take_token-Framed payer shc_token cost x refl in
      let credited = credit_token-Framed x'.treasury shc_token cost x' refl in
      elim (Result-cases (debit_token payer shc_token cost x.state_db).0) [
        | inl (done, e) ↦
            rw (e, commit_enhance)
              (Framed-trans x x' (credit_treasury_token shc_token cost x') debited (record {
                accounts = credited.accounts;
                state_root = credited.state_root;
                treasury = refl;
              }))
        | inr (failure, e) ↦ rw (e, commit_enhance) debited
      ]

  pub transferable :
      (payer : Result Address) (token : ℕ) (p : Address)
      → (payer >>= λ a. refuse_if (token == native_token) native_transfer >>= λ _. ok a) ≡ ok p
      → (token == native_token) ≡ false
  transferable (err failure) token p h = cc
  transferable (ok a) token p h = elim (Bool-cases (token == native_token)) [
    | inl native ↦ absurd (ground (arith, h))
    | inr other ↦ other
  ]

  economy_commit-Framed :
      (tx : ComputeTx) (op : GameOp V) (x : StateExecutor V)
      → Framed x (economy_commit lib tx op x).1
  unfolding economy_commit
  economy_commit-Framed tx (GameOp.transfer_token token to amount) x =
      commit_transfer-Framed
        (payer_of lib transfer_signer tx >>= λ a.
          refuse_if (token == native_token) native_transfer >>= λ _. ok a)
        to token amount x (transferable (payer_of lib transfer_signer tx) token)
  economy_commit-Framed tx (GameOp.transfer_coin to amount) x =
      commit_transfer-Framed (payer_of lib transfer_signer tx) to shc_token amount x (λ p e. refl)
  economy_commit-Framed tx (GameOp.enhance level) x =
      commit_enhance-Framed (cost_and_payer lib tx level x) x
  economy_commit-Framed tx (GameOp.zk_enhance level) x =
      commit_enhance-Framed (cost_and_payer lib tx level x) x
  economy_commit-Framed tx op x = framed x

  pub commit_economy_effects-Framed :
      (tx : ComputeTx) (x : StateExecutor V) → Framed x (commit_economy_effects lib tx x).1
  unfolding commit_economy_effects
  commit_economy_effects-Framed tx x = elim (Option-cases (game_op lib tx)) [
    | inl e ↦ rw (e, commit_economy_effects) (framed x)
    | inr (op, e) ↦ rw (e, commit_economy_effects) (economy_commit-Framed tx op x)
  ]
