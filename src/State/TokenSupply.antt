-- ===== src/State/TokenSupply.antt =====
-- The supply of each token: what the commits of a transaction do to the sum of its balances.
use rabbit_chain_node.Prelude.{
  ℕ, ◌+◌, ◌-◌, min, ◌≤◌, ◌≡◌, inl, inr, false, [], ◌∷◌, ◌==◌, ◌&&◌, ltb, if◌then◌else◌, unwrap_or,
  arith, Bool-cases,
}
use rabbit_chain_node.Compute.Types.{Address}
use rabbit_chain_node.State.{
  u256_max, StateDb, Tokens, native_token, token_lookup, token_insert, get_token_balance,
  set_token_balance,
}
use rabbit_chain_node.State.Executor.{ExecutionError, ok, err}
use rabbit_chain_node.State.Executor.Money.{credit_token, debit_token}

-- The amount, where the entry is of the token `tok`.
abbrev pub share : ℕ → ℕ → ℕ → ℕ
share tok token amount = if token == tok then amount else 0

abbrev pub total_tokens : ℕ → Tokens → ℕ
total_tokens tok [] = 0
total_tokens tok (((h, t), amount) ∷ rest) = share tok t amount + total_tokens tok rest

-- The supply of a token other than the native one.
abbrev pub token_supply : ℕ → StateDb → ℕ
token_supply tok db = total_tokens tok db.token_balances

abbrev held : Address → ℕ → Tokens → ℕ
held a token m = unwrap_or (token_lookup a token m) 0

total_tokens-insert :
    (tok : ℕ) (a : Address) (token amount : ℕ) (m : Tokens)
    → total_tokens tok (token_insert a token amount m) + share tok token (held a token m)
      ≡ total_tokens tok m + share tok token amount
unfolding token_insert token_lookup
total_tokens-insert tok a token amount [] = ground arith
total_tokens-insert tok a token amount (((h, t), old) ∷ rest) =
    elim (Bool-cases (h == a && t == token)) [
      | inl here ↦ ground arith
      | inr there ↦ rw there (omega (arith, total_tokens-insert tok a token amount rest))
    ]

held_below :
    (tok : ℕ) (a : Address) (token : ℕ) (m : Tokens)
    → share tok token (held a token m) ≤ total_tokens tok m
unfolding token_lookup
held_below tok a token [] = ground arith
held_below tok a token (((h, t), old) ∷ rest) = elim (Bool-cases (h == a && t == token)) [
  | inl here ↦ ground arith
  | inr there ↦ rw there (omega (arith, held_below tok a token rest))
]

pub supply-credit_token :
    (tok : ℕ) (a : Address) (token n : ℕ) (db : StateDb)
    → (token == native_token) ≡ false
    → token_supply tok db + share tok token n ≤ u256_max
    → token_supply tok (credit_token a token n db) ≡ token_supply tok db + share tok token n
unfolding credit_token get_token_balance set_token_balance
supply-credit_token tok a token n db other bound =
    let old = held a token db.token_balances in
    let inserted = total_tokens-insert tok a token (min (old + n) u256_max) db.token_balances in
    let below = held_below tok a token db.token_balances in
    rw other (ground (arith, inserted, below, bound))

pub supply-debit_token :
    (tok : ℕ) (a : Address) (token n : ℕ) (db : StateDb)
    → (token == native_token) ≡ false
    → (debit_token a token n db).0 ≡ ok tt
    → token_supply tok (debit_token a token n db).1 + share tok token n ≡ token_supply tok db
unfolding debit_token get_token_balance set_token_balance
supply-debit_token tok a token n db other paid =
    let old = held a token db.token_balances in
    let inserted = total_tokens-insert tok a token (old - n) db.token_balances in
    let below = held_below tok a token db.token_balances in
    elim (Bool-cases (ltb old n)) [
      | inl short ↦ absurd (ground (arith, other, paid))
      | inr enough ↦ rw (other, enough) (ground (arith, inserted, below, enough))
    ]

pub debit_token_fails :
    (a : Address) (token n : ℕ) (db : StateDb) (e : ExecutionError)
    → (token == native_token) ≡ false
    → (debit_token a token n db).0 ≡ err e
    → (debit_token a token n db).1 ≡ db
unfolding debit_token
debit_token_fails a token n db e other refused = ground arith
