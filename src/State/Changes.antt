-- ===== src/State/Changes.antt =====
-- What `apply_changes` does to a balance (state/mod.rs).
use rabbit_chain_node.Prelude.{
  ◌+◌, min, ◌≤◌, ◌≡◌, refl, sym, ap, ◌∙◌, if◌then◌else◌, inl, inr, List, [], ◌∷◌, Option, none,
  some, ◌==◌, arith, Bool-cases, Option-cases,
}
use rabbit_chain_node.Prelude.Assoc.{lookup, lookup-insert}
use rabbit_chain_node.Compute.Types.{Address, Bytes}
use rabbit_chain_node.Compute.Policy.Authorization.{from_be_bytes}
use rabbit_chain_node.State.{
  u256_max, StateDb, Account, StorageChange, AccountChange, get_balance, balance_or_zero,
  set_storage, change_balance, change_storage, apply_all, apply_changes,
}

-- No balance of the database is beyond a `U256`.
abbrev pub IsWord : StateDb → Type 0
IsWord db = (a : Address) → get_balance a db ≤ u256_max

accounts-change_storage :
    (a : Address) (cs : List StorageChange) (db : StateDb)
    → (change_storage a cs db).accounts ≡ db.accounts
unfolding change_storage set_storage
accounts-change_storage a [] db = refl
accounts-change_storage a (c ∷ cs) db =
    accounts-change_storage a cs (set_storage a c.key c.new_value db)

balance-change_balance :
    (a b : Address) (change : Option Bytes) (db : StateDb)
    → get_balance a db ≤ u256_max
    → (get_balance a db ≤ get_balance a (change_balance b change db))
      × (get_balance a (change_balance b change db) ≤ u256_max)
unfolding change_balance get_balance balance_or_zero
balance-change_balance a b none db word = (omega arith, word)
balance-change_balance a b (some bytes) db word = elim (Option-cases (lookup b db.accounts)) [
  | inl missing ↦ ground arith
  | inr (account, found) ↦
      let n = from_be_bytes 0 bytes in
      let grown : Account = record account { balance = min (account.balance + n) u256_max } in
      let l = lookup-insert a b grown db.accounts in
      elim (Bool-cases (b == a)) [ inl same ↦ ground arith | inr other ↦ ground arith ]
]

apply_all-balance :
    (a : Address) (cs : List AccountChange) (db : StateDb)
    → get_balance a db ≤ u256_max
    → get_balance a db ≤ get_balance a (apply_all cs db)
unfolding apply_all
apply_all-balance a [] db word = omega arith
apply_all-balance a (c ∷ cs) db word =
    let changed = change_balance c.address c.balance_change db in
    let next = change_storage c.address c.storage_changes changed in
    let (grows, fits) = balance-change_balance a c.address c.balance_change db word in
    let same : get_balance a next ≡ get_balance a changed =
      unfold get_balance in
      ap (λ m. balance_or_zero (lookup a m))
        (accounts-change_storage c.address c.storage_changes changed) in
    omega (arith, grows, fits, same, apply_all-balance a cs next (omega (arith, same, fits)))

-- What a change makes of an account: the bytes are added as an unsigned number, up to the largest word. A
-- missing account stays missing.
abbrev pub grow : Option Bytes → Option Account → Option Account
grow none found = found
grow (some bytes) none = none
grow (some bytes) (some account) =
    some (record account { balance = min (account.balance + from_be_bytes 0 bytes) u256_max })

-- The account at `a` after the changes, of which those of its own address count, in order.
abbrev pub grown : Address → List AccountChange → Option Account → Option Account
grown a [] found = found
grown a (c ∷ cs) found = grown a cs (if c.address == a then grow c.balance_change found else found)

lookup-change_balance :
    (a b : Address) (change : Option Bytes) (db : StateDb)
    → lookup a (change_balance b change db).accounts
      ≡ (if b == a then grow change (lookup a db.accounts) else lookup a db.accounts)
unfolding change_balance
lookup-change_balance a b none db = ground arith
lookup-change_balance a b (some bytes) db = elim (Option-cases (lookup b db.accounts)) [
  | inl missing ↦ elim (Bool-cases (b == a)) [
    | inl same ↦
        let e : b ≡ a = ground (arith, same) in
        let gone : lookup a db.accounts ≡ none = ap (λ k. lookup k db.accounts) (sym e) ∙ missing in
        rw (missing, same, gone, change_balance) refl
    | inr other ↦ rw (missing, other, change_balance) refl
  ]
  | inr (account, found) ↦
      let changed : Account = record account {
        balance = min (account.balance + from_be_bytes 0 bytes) u256_max;
      } in
      let l = lookup-insert a b changed db.accounts in
      elim (Bool-cases (b == a)) [
        | inl same ↦
            let e : b ≡ a = ground (arith, same) in
            let here : lookup a db.accounts ≡ some account =
              ap (λ k. lookup k db.accounts) (sym e) ∙ found in
            rw (found, same, here, change_balance) (l ∙ rw same refl)
        | inr other ↦ rw (found, other, change_balance) (l ∙ rw other refl)
      ]
]

apply_all-grown :
    (a : Address) (cs : List AccountChange) (db : StateDb)
    → lookup a (apply_all cs db).accounts ≡ grown a cs (lookup a db.accounts)
unfolding apply_all
apply_all-grown a [] db = refl
apply_all-grown a (c ∷ cs) db =
    let changed = change_balance c.address c.balance_change db in
    let next = change_storage c.address c.storage_changes changed in
    apply_all-grown a cs next
    ∙ ap (λ m. grown a cs (lookup a m))
        (accounts-change_storage c.address c.storage_changes changed)
    ∙ ap (λ found. grown a cs found) (lookup-change_balance a c.address c.balance_change db)

-- After any list of changes every account has its balance with each of its own changes added, in order, as
-- the unsigned number that the bytes of the change spell, up to the largest `U256`; what else it has stays.
-- So no list of changes lowers a balance that is a `U256`.
pub apply_changes-never_lowers :
    (keccak256 : Bytes → Bytes) (a : Address) (cs : List AccountChange) (db : StateDb)
    → get_balance a db ≤ u256_max
    → (lookup a (apply_changes keccak256 cs db).1.accounts ≡ grown a cs (lookup a db.accounts))
      × (get_balance a db ≤ get_balance a (apply_changes keccak256 cs db).1)
unfolding apply_changes
apply_changes-never_lowers keccak256 a cs db word =
    let h = apply_all-balance a cs db word in
    (apply_all-grown a cs db, (unfold get_balance in (unfold get_balance in h)))
