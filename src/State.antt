-- ===== src/State.antt =====
-- The state database (crates/rabbitcore/src/state/mod.rs) and, in the children, the block executor over
-- it. A `U256` is the number that its bytes spell. The hash function is a parameter.
pub mod Executor
pub mod Game
pub mod Payments
pub mod Governed
pub mod Rewards
pub mod Prechecks
pub mod Blocks
pub mod Frame
pub mod FrameRewards
pub mod Conservation
pub mod Supply
pub mod Receipts
pub mod Charged
pub mod Changes
pub mod TokenSupply
pub mod TokenConservation
pub mod TokenBlocks
pub mod Refusals
mod Tests
use rabbit_chain_node.Prelude.{
  ℕ, ◌+◌, ◌^◌, ◌-◌, min, Bool, List, [], ◌∷◌, ◌++◌, Option, none, some, ◌==◌, ◌&&◌, if◌then◌else◌,
  unwrap_or,
}
use rabbit_chain_node.Prelude.Assoc.{Map, lookup, insert}
use rabbit_chain_node.Compute.Types.{Hash, Address, Bytes}
use rabbit_chain_node.Compute.Tx.Preimage.{to_be_bytes}
use rabbit_chain_node.Compute.Policy.Authorization.{from_be_bytes}

abbrev pub u256_max : ℕ
u256_max = 2 ^ 256 - 1

-- `U256::saturating_add`; `saturating_sub` is the subtraction of ℕ. Account/U256 has both on bytes.
abbrev pub sat_add_u256 : ℕ → ℕ → ℕ
sat_add_u256 a b = min (a + b) u256_max

-- The fields of `Account` that the state database reads or writes.
pub record Account : Type 0 where
  pub balance : ℕ
  pub nonce : ℕ
  pub code_hash : Hash

-- `Account::default()`
abbrev pub default_account : Account
default_account = record { balance = 0; nonce = 0; code_hash = 0 }

-- The ledger of tokens, keyed by the holder and the token.
abbrev pub Tokens : Type 0
Tokens = List ((Address × ℕ) × ℕ)

pub record StateDb : Type 0 where
  pub state_root : Hash
  pub accounts : Map Account
  pub token_balances : Tokens
  pub storage : Map (Map Hash)
  pub codes : Map Bytes

-- `StateDb::new`
abbrev pub new : Hash → StateDb
new root = record {
  state_root = root;
  accounts = [];
  token_balances = [];
  storage = [];
  codes = [];
}

unfoldable pub token_lookup : Address → ℕ → Tokens → Option ℕ
token_lookup holder token [] = none
token_lookup holder token (((h, t), amount) ∷ rest) =
    if h == holder && t == token then some amount else token_lookup holder token rest

unfoldable pub token_insert : Address → ℕ → ℕ → Tokens → Tokens
token_insert holder token amount [] = ((holder, token), amount) ∷ []
token_insert holder token amount (((h, t), old) ∷ rest) =
    if h == holder && t == token
    then ((holder, token), amount) ∷ rest
    else ((h, t), old) ∷ token_insert holder token amount rest

abbrev pub native_token : ℕ
native_token = 0

abbrev pub shc_token : ℕ
shc_token = 1

unfoldable pub get_account : Address → StateDb → Option Account
get_account address db = lookup address db.accounts

unfoldable pub insert_account : Address → Account → StateDb → StateDb
insert_account address account db = record db { accounts = insert address account db.accounts }

-- `.map(|a| a.balance).unwrap_or_default()`
unfoldable pub balance_or_zero : Option Account → ℕ
balance_or_zero none = 0
balance_or_zero (some account) = account.balance

unfoldable pub get_balance : Address → StateDb → ℕ
get_balance address db = balance_or_zero (lookup address db.accounts)

-- A missing account is left missing.
unfoldable pub set_balance : Address → ℕ → StateDb → StateDb
set_balance address amount db = elim (lookup address db.accounts) [
  | none ↦ db
  | some account ↦ record db {
    accounts = insert address (record account { balance = amount }) db.accounts;
  }
]

unfoldable pub get_nonce : Address → StateDb → ℕ
get_nonce address db = elim (lookup address db.accounts) [ none ↦ 0 | some account ↦ account.nonce ]

unfoldable pub set_nonce : Address → ℕ → StateDb → StateDb
set_nonce address nonce db = elim (lookup address db.accounts) [
  | none ↦ db
  | some account ↦ record db {
    accounts = insert address (record account { nonce = nonce }) db.accounts;
  }
]

unfoldable pub get_token_balance : Address → ℕ → StateDb → ℕ
get_token_balance address token db =
    if token == native_token
    then get_balance address db
    else unwrap_or (token_lookup address token db.token_balances) 0

unfoldable pub set_token_balance : Address → ℕ → ℕ → StateDb → StateDb
set_token_balance address token amount db =
    if token == native_token
    then set_balance address amount db
    else record db { token_balances = token_insert address token amount db.token_balances }

unfoldable pub get_code : Address → StateDb → Option Bytes
get_code address db = elim (lookup address db.accounts) [
  | none ↦ none
  | some account ↦ lookup account.code_hash db.codes
]

-- The slots of an address; one that has none yet has the empty map.
abbrev pub slots : Address → Map (Map Hash) → Map Hash
slots address storage = unwrap_or (lookup address storage) []

unfoldable pub get_storage : Address → Hash → StateDb → Hash
get_storage address key db = unwrap_or (lookup key (slots address db.storage)) 0

unfoldable pub set_storage : Address → Hash → Hash → StateDb → StateDb
set_storage address key value db = record db {
  storage = insert address (insert key value (slots address db.storage)) db.storage;
}

pub record StorageChange : Type 0 where
  pub key : Hash
  pub new_value : Hash

-- The fields of `AccountChange` that are applied. The change of a balance is the bytes of an `I256`.
pub record AccountChange : Type 0 where
  pub address : Address
  pub balance_change : Option Bytes
  pub storage_changes : List StorageChange

unfoldable pub change_balance : Address → Option Bytes → StateDb → StateDb
change_balance address none db = db
change_balance address (some bytes) db = elim (lookup address db.accounts) [
  | none ↦ db
  | some account ↦ record db {
    accounts =
        insert address
          (record account { balance = sat_add_u256 account.balance (from_be_bytes 0 bytes) })
          db.accounts;
  }
]

unfoldable pub change_storage : Address → List StorageChange → StateDb → StateDb
change_storage address [] db = db
change_storage address (c ∷ cs) db =
    change_storage address cs (set_storage address c.key c.new_value db)

-- The loop of `apply_changes`.
unfoldable pub apply_all : List AccountChange → StateDb → StateDb
apply_all [] db = db
apply_all (c ∷ cs) db =
    apply_all cs
      (change_storage c.address c.storage_changes (change_balance c.address c.balance_change db))

abbrev account_bytes : Map Account → Bytes
account_bytes [] = []
account_bytes ((address, account) ∷ rest) =
    to_be_bytes 20 address ++ (to_be_bytes 32 account.balance ++ account_bytes rest)

abbrev token_bytes : Tokens → Bytes
token_bytes [] = []
token_bytes (((address, token), amount) ∷ rest) =
    to_be_bytes 20 address ++ (to_be_bytes 8 token ++ (to_be_bytes 32 amount ++ token_bytes rest))

module _ (keccak256 : Bytes → Bytes) where
  unfoldable pub set_code : Address → Bytes → StateDb → StateDb
  set_code address code db =
      let code_hash = from_be_bytes 0 (keccak256 code) in
      let accounts : Map Account = elim (lookup address db.accounts) [
        | none ↦ db.accounts
        | some account ↦ insert address (record account { code_hash = code_hash }) db.accounts
      ] in
      record db { accounts = accounts; codes = insert code_hash code db.codes }

  -- The maps are read in the order of the association lists; a hash map has no order of its own.
  unfoldable pub compute_state_root : StateDb → Hash
  compute_state_root db =
      from_be_bytes 0 (keccak256 (account_bytes db.accounts ++ token_bytes db.token_balances))

  unfoldable pub apply_changes : List AccountChange → StateDb → Hash × StateDb
  apply_changes changes db =
      let db' = apply_all changes db in
      let root = compute_state_root db' in (root, record db' { state_root = root })
