-- ===== src/State/Charged.antt =====
-- What a successful transaction costs its signer.
use rabbit_chain_node.Prelude.{
  ℕ, subst, min, ◌+◌, ◌-◌, ◌≡◌, ◌≢◌, refl, sym, ap, ◌∙◌, inl, inr, false, some, ◌==◌, arith,
  Bool-cases, Option-cases,
}
use rabbit_chain_node.Prelude.Assoc.{lookup, lookup-insert}
use rabbit_chain_node.Compute.Types.{Address, ComputeTx}
use rabbit_chain_node.Compute.Tx.{is_mint}
use rabbit_chain_node.Compute.Executor.{Registry, execute}
use rabbit_chain_node.Compute.Results.{ComputeResult-cases}
use rabbit_chain_node.Block.{ReceiptStatus}
use rabbit_chain_node.State.{
  u256_max, StateDb, Account, get_account, insert_account, get_balance, balance_or_zero,
}
use rabbit_chain_node.State.Executor.{
  Result, ok, err, StateExecutor, ed25519_signer_address, tx_gas_fee,
}
use rabbit_chain_node.State.Executor.Money.{
  account_or_default, credit_account, debit_account, credit_treasury, with_db,
}
use rabbit_chain_node.State.Game.{Libraries}
use rabbit_chain_node.State.Payments.{commit_fee_effects, commit_economy_effects}
use rabbit_chain_node.State.Governed.{commit_governance_effects}
use rabbit_chain_node.State.Rewards.{commit_zk_tower_effects, commit_drop_sell_effects}
use rabbit_chain_node.State.Blocks.{
  Environment, ◌then_commit◌, precheck, commit_effects, settle, execute_tx,
}
use rabbit_chain_node.State.Frame.{
  Result-cases, Framed, Framed-trans, commit_economy_effects-Framed,
}
use rabbit_chain_node.State.FrameRewards.{
  commit_governance_effects-Framed, commit_zk_tower_effects-Framed, commit_drop_sell_effects-Framed,
}

then_commit_ok :
    {S : Type 0}
    → (m : Result (Unit {0}) × S) (next : S → Result (Unit {0}) × S) (z : S)
    → (m then_commit next) ≡ (ok tt, z)
    → (m.0 ≡ ok tt) × (next m.1 ≡ (ok tt, z))
then_commit_ok (ok t, s) next z h = (refl, h)
then_commit_ok (err failure, s) next z h = cc

balance-debit_account :
    (a : Address) (n : ℕ) (db : StateDb)
    → (debit_account a n db).0 ≡ ok tt
    → get_balance a (debit_account a n db).1 + n ≡ get_balance a db
unfolding debit_account get_balance get_account insert_account account_or_default balance_or_zero
balance-debit_account a n db h = elim (Option-cases (lookup a db.accounts)) [
  | inl missing ↦
      let account : Account = record { balance = 0 - n; nonce = 0; code_hash = 0 } in
      ground (arith, lookup-insert a a account db.accounts)
  | inr (account, found) ↦
      let left : Account = record account { balance = account.balance - n } in
      ground (arith, lookup-insert a a left db.accounts)
]

balance-credit_account :
    (a b : Address) (n : ℕ) (db : StateDb)
    → b ≢ a
    → get_balance a (credit_account b n db) ≡ get_balance a db
unfolding credit_account get_balance get_account insert_account
balance-credit_account a b n db other =
    let account = account_or_default (lookup b db.accounts) in
    let paid : Account = record account { balance = min (account.balance + n) u256_max } in
    let distinct : (b == a) ≡ false = ground arith in
    ap balance_or_zero (lookup-insert a b paid db.accounts ∙ rw distinct refl)

step-Framed :
    {V : Type 0}
    → (next : StateExecutor V → Result (Unit {0}) × StateExecutor V) (x z : StateExecutor V)
    → Framed x (next x).1
    → next x ≡ (ok tt, z)
    → Framed x z
step-Framed next x z f h = subst (λ y. Framed x y) (ap (λ m. m.1) h) f

-- From `x` to `z`, the account of `payer` has lost `fee`.
abbrev pub Charges : {V : Type 0} → Address → ℕ → StateExecutor V → StateExecutor V → Type 0
Charges payer fee x z = get_balance payer z.state_db + fee ≡ get_balance payer x.state_db

Framed-balance :
    {V : Type 0}
    → (a : Address) (x y : StateExecutor V) → Framed x y
    → get_balance a y.state_db ≡ get_balance a x.state_db
unfolding get_balance
Framed-balance a x y f = ap (λ m. balance_or_zero (lookup a m)) f.accounts

module _ {V T M P : Type 0} (lib : Libraries V T M P) (base_fee : ℕ) (tx : ComputeTx)
    (payer : Address) where
  commit_fee_effects-Charges :
      (x z : StateExecutor V)
      → is_mint tx.command ≡ false
      → ed25519_signer_address lib.keccak256 tx ≡ some payer
      → payer ≢ x.treasury
      → commit_fee_effects lib tx base_fee x ≡ (ok tt, z)
      → Charges payer (tx_gas_fee tx base_fee) x z
  unfolding commit_fee_effects
  commit_fee_effects-Charges x z charged signed apart h =
      let fee = tx_gas_fee tx base_fee in
      elim (Bool-cases (fee == 0)) [
        | inl none_due ↦ let same : x ≡ z = ground (arith, h) in ground arith
        | inr due ↦ elim (Result-cases (debit_account payer fee x.state_db).0) [
          | inr (failure, refused) ↦ absurd (ground (arith, h))
          | inl (done, paid) ↦
              let db = (debit_account payer fee x.state_db).1 in
              let same : credit_treasury fee (with_db db x) ≡ z = ground (arith, h) in
              let credited = balance-credit_account payer x.treasury fee db (λ e. apart (sym e)) in
              let debited = balance-debit_account payer fee x.state_db paid in
              subst (λ y. Charges payer fee x y) same
                (unfold credit_treasury in omega (arith, credited, debited))
        ]
      ]

  commit_effects-Charges :
      (env : Environment) (t : ℕ) (x z : StateExecutor V)
      → is_mint tx.command ≡ false
      → ed25519_signer_address lib.keccak256 tx ≡ some payer
      → payer ≢ x.treasury
      → commit_effects lib env base_fee t tx x ≡ (ok tt, z)
      → Charges payer (tx_gas_fee tx base_fee) x z
  unfolding commit_effects
  commit_effects-Charges env t x z charged signed apart h =
      let m₁ = commit_governance_effects lib tx t x in
      let m₂ = m₁ then_commit commit_economy_effects lib tx in
      let m₃ = m₂ then_commit commit_fee_effects lib tx base_fee in
      let m₄ = m₃ then_commit commit_zk_tower_effects lib tx in
      let (ok₄, last) = then_commit_ok m₄ (commit_drop_sell_effects lib tx) z h in
      let (ok₃, tower) =
        then_commit_ok m₃ (commit_zk_tower_effects lib tx) m₄.1 (ground (arith, ok₄)) in
      let (ok₂, fee) =
        then_commit_ok m₂ (commit_fee_effects lib tx base_fee) m₃.1 (ground (arith, ok₃)) in
      let (ok₁, economy) =
        then_commit_ok m₁ (commit_economy_effects lib tx) m₂.1 (ground (arith, ok₂)) in
      let paid_out = commit_zk_tower_effects-Framed lib tx m₃.1 in
      let sold = commit_drop_sell_effects-Framed lib tx m₄.1 in
      let before = Framed-trans x m₁.1 m₂.1 (commit_governance_effects-Framed lib tx t x) (
        step-Framed (commit_economy_effects lib tx) m₁.1 m₂.1
          (commit_economy_effects-Framed lib tx m₁.1) economy) in
      let after =
        Framed-trans m₃.1 m₄.1 z
          (step-Framed (commit_zk_tower_effects lib tx) m₃.1 m₄.1 paid_out tower)
          (step-Framed (commit_drop_sell_effects lib tx) m₄.1 z sold last) in
      let away : payer ≢ m₂.1.treasury = λ e. apart (e ∙ before.treasury) in
      omega (
        arith,
        commit_fee_effects-Charges m₂.1 m₃.1 charged signed away fee,
        Framed-balance payer x m₂.1 before,
        Framed-balance payer m₃.1 z after,
      )

  settle_success :
      (env : Environment) (t : ℕ) (nonces : Registry) (x : StateExecutor V)
      → (settle lib env base_fee t tx nonces x).receipt.status ≡ ReceiptStatus.success
      → commit_effects lib env base_fee t tx x
        ≡ (ok tt, (settle lib env base_fee t tx nonces x).executor)
  unfolding settle
  settle_success env t nonces x h = elim (Result-cases (commit_effects lib env base_fee t tx x).0) [
    | inl (done, e) ↦ ground (arith, e)
    | inr (failure, e) ↦ absurd (ground (arith, h))
  ]

  -- A transaction that is not a mint, is signed by an account other than the treasury and gets a receipt
  -- of success has taken its gas fee, in full and once, from the native balance of the signer.
  pub execute_tx-Charges :
      (env : Environment) (t : ℕ) (nonces : Registry) (x : StateExecutor V)
      → is_mint tx.command ≡ false
      → ed25519_signer_address lib.keccak256 tx ≡ some payer
      → payer ≢ x.treasury
      → (execute_tx lib env base_fee t tx nonces x).receipt.status ≡ ReceiptStatus.success
      → Charges payer
          (tx_gas_fee tx base_fee)
          x
          (execute_tx lib env base_fee t tx nonces x).executor
  unfolding execute_tx
  execute_tx-Charges env t nonces x charged signed apart succeeded =
      elim (Result-cases (precheck lib env base_fee t tx x)) [
        | inr (failure, e) ↦ absurd (ground (arith, succeeded))
        | inl (done, e) ↦
            let run =
              execute env.encoders env.backends (env.now tx) tx
                (record { store = x.compute_store; replay_nonce_registry = nonces }) in
            let x' : StateExecutor V = record x { compute_store = run.1.store } in
            let last = settle lib env base_fee t tx run.1.replay_nonce_registry x' in
            elim (ComputeResult-cases run.0) [
              | inr (failure, r) ↦ absurd (ground (arith, succeeded))
              | inl (report, r) ↦
                  let settled : last.receipt.status ≡ ReceiptStatus.success =
                    ground (arith, succeeded) in
                  rw (e, r, execute_tx)
                    (commit_effects-Charges env t x' last.executor charged signed apart
                      (settle_success env t run.1.replay_nonce_registry x' settled))
            ]
      ]
