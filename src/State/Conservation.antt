-- ===== src/State/Conservation.antt =====
-- The supply of the native token: what a block does to the sum of the accounts' balances.
use rabbit_chain_node.Prelude.{
  ℕ, ◌+◌, ◌-◌, ◌≤◌, ◌≡◌, refl, ap, ◌∙◌, ◌⊎◌, inl, inr, [], ◌∷◌, Option, none, some, ◌==◌, ltb,
  arith, Bool-cases, Option-cases,
}
use rabbit_chain_node.Prelude.Assoc.{Map, lookup, insert}
use rabbit_chain_node.Compute.Types.{Address, ComputeTx}
use rabbit_chain_node.Compute.Tx.{is_mint}
use rabbit_chain_node.State.{
  StateDb, Account, balance_or_zero, get_account, insert_account, sat_add_u256, u256_max,
}
use rabbit_chain_node.State.Executor.{
  Result, ExecutionError, ok, err, StateExecutor, ed25519_signer_address, tx_gas_fee,
}
use rabbit_chain_node.State.Executor.Money.{
  account_or_default, credit_account, debit_account, credit_treasury, with_db,
}
use rabbit_chain_node.State.Game.{Libraries}
use rabbit_chain_node.State.Payments.{commit_fee_effects, commit_economy_effects}
use rabbit_chain_node.State.Governed.{commit_governance_effects}
use rabbit_chain_node.State.Rewards.{commit_zk_tower_effects, commit_drop_sell_effects}
use rabbit_chain_node.State.Blocks.{Environment, ◌then_commit◌, commit_effects}
use rabbit_chain_node.State.Frame.{Result-cases, Framed, commit_economy_effects-Framed}
use rabbit_chain_node.State.FrameRewards.{
  commit_governance_effects-Framed, commit_zk_tower_effects-Framed, commit_drop_sell_effects-Framed,
}

abbrev pub total_balance : Map Account → ℕ
total_balance [] = 0
total_balance ((_, account) ∷ rest) = account.balance + total_balance rest

-- The supply of the native token.
abbrev pub native_supply : StateDb → ℕ
native_supply db = total_balance db.accounts

total_balance-insert :
    (a : Address) (account : Account) (m : Map Account)
    → total_balance (insert a account m) + balance_or_zero (lookup a m)
      ≡ total_balance m + account.balance
unfolding insert lookup balance_or_zero
total_balance-insert a account [] = omega arith
total_balance-insert a account ((key, old) ∷ rest) = elim (Bool-cases (key == a)) [
  | inl here ↦ rw here (omega arith)
  | inr there ↦ rw there (omega (arith, total_balance-insert a account rest))
]

balance_below : (a : Address) (m : Map Account) → balance_or_zero (lookup a m) ≤ total_balance m
unfolding lookup balance_or_zero
balance_below a [] = omega arith
balance_below a ((key, old) ∷ rest) = elim (Bool-cases (key == a)) [
  | inl here ↦ rw here (omega arith)
  | inr there ↦ rw there (omega (arith, balance_below a rest))
]

balance-or_default : (o : Option Account) → (account_or_default o).balance ≡ balance_or_zero o
unfolding account_or_default balance_or_zero
balance-or_default none = refl
balance-or_default (some account) = refl

supply-credit_account :
    (a : Address) (n : ℕ) (db : StateDb)
    → native_supply db + n ≤ u256_max
    → native_supply (credit_account a n db) ≡ native_supply db + n
unfolding credit_account get_account insert_account
supply-credit_account a n db h =
    let account = account_or_default (lookup a db.accounts) in
    let paid : Account = record account { balance = sat_add_u256 account.balance n } in
    omega (
      arith,
      total_balance-insert a paid db.accounts,
      balance_below a db.accounts,
      balance-or_default (lookup a db.accounts),
    )

supply-debit_account :
    (a : Address) (n : ℕ) (db : StateDb)
    → (debit_account a n db).0 ≡ ok tt
    → native_supply (debit_account a n db).1 + n ≡ native_supply db
unfolding debit_account get_account insert_account
supply-debit_account a n db h =
    let account = account_or_default (lookup a db.accounts) in
    let left : Account = record account { balance = account.balance - n } in
    elim (Bool-cases (ltb account.balance n)) [
      | inl short ↦ absurd (ground (arith, h))
      | inr enough ↦ rw enough (
          ground (
            arith,
            total_balance-insert a left db.accounts,
            balance_below a db.accounts,
            balance-or_default (lookup a db.accounts),
          ))
    ]

-- The state root is what it was, and so is the supply where it is at most the largest `U256`.
pub record Kept {V : Type 0} (before x : StateExecutor V) : Type 0 where
  pub supply :
      native_supply before.state_db ≤ u256_max
      → native_supply x.state_db ≡ native_supply before.state_db
  pub state_root : x.state_db.state_root ≡ before.state_db.state_root

pub Kept-refl : {V : Type 0} → (x : StateExecutor V) → Kept x x
Kept-refl x = record { supply = λ bound. refl; state_root = refl }

pub Kept-trans : {V : Type 0} → (a b c : StateExecutor V) → Kept a b → Kept b c → Kept a c
Kept-trans a b c f g = record {
  supply = λ bound. g.supply (rw (f.supply bound) bound) ∙ f.supply bound;
  state_root = g.state_root ∙ f.state_root;
}

Framed-Kept : {V : Type 0} → (a b : StateExecutor V) → Framed a b → Kept a b
Framed-Kept a b f = record {
  supply = λ bound. ap total_balance f.accounts;
  state_root = f.state_root;
}

-- What a chain of commits keeps, if each of them keeps it.
pub then_commit-keeps :
    {S : Type 0}
    → (Q : S → Type 0) (m : Result (Unit {0}) × S) (next : S → Result (Unit {0}) × S) → Q m.1
    → ((s : S) → Q s → Q (next s).1)
    → Q (m then_commit next).1
then_commit-keeps Q (ok t, s) next h keep = keep s h
then_commit-keeps Q (err failure, s) next h keep = h

debit_account_fails :
    (a : Address) (n : ℕ) (db : StateDb)
    → (((debit_account a n db).0 ≡ ok tt) ⊎ ((debit_account a n db).1 ≡ db))
      × ((debit_account a n db).1.state_root ≡ db.state_root)
unfolding debit_account insert_account
debit_account_fails a n db =
    elim (Bool-cases (ltb (account_or_default (get_account a db)).balance n)) [
      | inl short ↦ rw short (inr refl, refl)
      | inr enough ↦ rw enough (inl refl, refl)
    ]

module _ {V T M P : Type 0} (lib : Libraries V T M P) where
  pay_fee-Kept :
      (payer : Address) (fee : ℕ) (x : StateExecutor V)
      → (debit_account payer fee x.state_db).0 ≡ ok tt
      → Kept x (credit_treasury fee (with_db (debit_account payer fee x.state_db).1 x))
  unfolding credit_treasury
  pay_fee-Kept payer fee x paid =
      let db = (debit_account payer fee x.state_db).1 in
      let taken = supply-debit_account payer fee x.state_db paid in
      record {
        supply = λ bound. omega (arith, supply-credit_account x.treasury fee db (omega arith));
        state_root =
            (unfold credit_account insert_account in (debit_account_fails payer fee x.state_db).1);
      }

  refused_debit-Kept :
      (payer : Address) (fee : ℕ) (e : ExecutionError) (x : StateExecutor V)
      → (debit_account payer fee x.state_db).0 ≡ err e
      → Kept x (with_db (debit_account payer fee x.state_db).1 x)
  refused_debit-Kept payer fee e x refused =
      let (same, root) = debit_account_fails payer fee x.state_db in
      elim same [
        | inl paid ↦ absurd (cc)
        | inr unchanged ↦ record {
          supply = λ bound. ap (λ (db : StateDb). native_supply db) unchanged;
          state_root = root;
        }
      ]

  commit_fee_effects-Kept :
      (tx : ComputeTx) (base_fee : ℕ) (x : StateExecutor V)
      → Kept x (commit_fee_effects lib tx base_fee x).1
  unfolding commit_fee_effects
  commit_fee_effects-Kept tx base_fee x = elim (Bool-cases (is_mint tx.command)) [
    | inl free ↦ rw (free, commit_fee_effects) (Kept-refl x)
    | inr charged ↦ elim (Bool-cases (tx_gas_fee tx base_fee == 0)) [
      | inl none_due ↦ rw (charged, none_due, commit_fee_effects) (Kept-refl x)
      | inr due ↦ elim (Option-cases (ed25519_signer_address lib.keccak256 tx)) [
        | inl unsigned ↦ rw (charged, due, unsigned, commit_fee_effects) (Kept-refl x)
        | inr (payer, signed) ↦
            let fee = tx_gas_fee tx base_fee in
            elim (Result-cases (debit_account payer fee x.state_db).0) [
              | inl (done, paid) ↦
                  rw (charged, due, signed, paid, commit_fee_effects)
                    (pay_fee-Kept payer fee x paid)
              | inr (failure, refused) ↦
                  rw (charged, due, signed, refused, commit_fee_effects)
                    (refused_debit-Kept payer fee failure x refused)
            ]
      ]
    ]
  ]

  -- The commits of one transaction leave the supply and the root.
  pub commit_effects-Kept :
      (env : Environment) (base_fee t : ℕ) (tx : ComputeTx) (x : StateExecutor V)
      → Kept x (commit_effects lib env base_fee t tx x).1
  unfolding commit_effects
  commit_effects-Kept env base_fee t tx x =
      let more = λ (y : StateExecutor V) (z : StateExecutor V) (k : Kept x y) (f : Framed y z).
        Kept-trans x y z k (Framed-Kept y z f) in
      then_commit-keeps (Kept x) _ (commit_drop_sell_effects lib tx)
        (then_commit-keeps (Kept x) _ (commit_zk_tower_effects lib tx)
          (then_commit-keeps (Kept x) _ (commit_fee_effects lib tx base_fee)
            (then_commit-keeps (Kept x) _ (commit_economy_effects lib tx)
              (Framed-Kept x (commit_governance_effects lib tx t x).1
                (commit_governance_effects-Framed lib tx t x))
              (λ y k.
                more y (commit_economy_effects lib tx y).1 k
                  (commit_economy_effects-Framed lib tx y)))
            (λ y k.
              Kept-trans x y (commit_fee_effects lib tx base_fee y).1 k
                (commit_fee_effects-Kept tx base_fee y)))
          (λ y k.
            more y (commit_zk_tower_effects lib tx y).1 k
              (commit_zk_tower_effects-Framed lib tx y)))
        (λ y k.
          more y (commit_drop_sell_effects lib tx y).1 k (commit_drop_sell_effects-Framed lib tx y))
