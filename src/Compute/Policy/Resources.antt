-- ===== src/Compute/Policy/Resources.antt =====
-- `NoopResourcePolicy` (compute/policy.rs): despite its name it does the accounting. A counter for each
-- asset collects what the inputs give and what the proposals take.
use rabbit_chain_node.Prelude.{
  ℕ, Bool, true, false, not, ◌||◌, List, [], ◌∷◌, Option, none, some, ltb, leb, ◌==◌, if◌then◌else◌,
  u64_max, u128_max, checked_add, unwrap_or,
}
use rabbit_chain_node.Prelude.Assoc.{Map, lookup, insert}
use rabbit_chain_node.Compute.Types.{
  Hash, ResourceValue, ResourceMap, ObjectOutput, OutputProposal, ComputeTx,
  resource_policy_violation, ComputeResult, ok, ◌>>=◌, ◌>>◌, reject_if, ok_or,
}
use rabbit_chain_node.Compute.Tx.{is_mint}

pub data ResourceKind : Type 0 where
  amount blob ref ref_batch : ResourceKind

abbrev pub kind_tag : ResourceKind → ℕ
kind_tag ResourceKind.amount = 0
kind_tag ResourceKind.blob = 1
kind_tag ResourceKind.ref = 2
kind_tag ResourceKind.ref_batch = 3

pub record ResourceCounter : Type 0 where
  pub input_amount : ℕ
  pub output_amount : ℕ
  pub input_non_amount : ℕ
  pub output_non_amount : ℕ
  pub kind : Option ResourceKind

abbrev pub default : ResourceCounter
default = record {
  input_amount = 0;
  output_amount = 0;
  input_non_amount = 0;
  output_non_amount = 0;
  kind = none;
}

unfoldable pub kind_of_value : ResourceValue → ResourceKind
kind_of_value (ResourceValue.amount _) = ResourceKind.amount
kind_of_value (ResourceValue.blob _) = ResourceKind.blob
kind_of_value (ResourceValue.ref _) = ResourceKind.ref
kind_of_value (ResourceValue.ref_batch _) = ResourceKind.ref_batch

-- Every two neighbours ascend strictly.
unfoldable pub validate_resource_map : ResourceMap → ComputeResult (Unit {0})
validate_resource_map [] = ok tt
validate_resource_map (x ∷ []) = ok tt
validate_resource_map (x ∷ y ∷ m) =
    reject_if (leb y.0 x.0) resource_policy_violation >> validate_resource_map (y ∷ m)

abbrev pub Counters : Type 0
Counters = Map ResourceCounter

-- `counters.entry(asset_id).or_default()`
abbrev pub entry : Hash → Counters → ResourceCounter
entry asset counters = unwrap_or (lookup asset counters) default

abbrev pub kind_mismatch : Option ResourceKind → ResourceKind → Bool
kind_mismatch none kind = false
kind_mismatch (some existing) kind = not (kind_tag existing == kind_tag kind)

-- The `match value` of `update_resource_counter`.
unfoldable pub add_value : ResourceValue → Bool → ResourceCounter → ComputeResult ResourceCounter
add_value (ResourceValue.amount v) true c =
    ok_or (checked_add u128_max c.input_amount v) resource_policy_violation >>= λ n.
    ok (record c { input_amount = n })
add_value (ResourceValue.amount v) false c =
    ok_or (checked_add u128_max c.output_amount v) resource_policy_violation >>= λ n.
    ok (record c { output_amount = n })
add_value _ true c =
    ok_or (checked_add u64_max c.input_non_amount 1) resource_policy_violation >>= λ n.
    ok (record c { input_non_amount = n })
add_value _ false c =
    ok_or (checked_add u64_max c.output_non_amount 1) resource_policy_violation >>= λ n.
    ok (record c { output_non_amount = n })

unfoldable pub update_resource_counter :
    Hash → ResourceValue → Bool → Counters → ComputeResult Counters
update_resource_counter asset value input_side counters =
    let c = entry asset counters in
    let kind = kind_of_value value in
    reject_if (kind_mismatch c.kind kind) resource_policy_violation
    >> (add_value value input_side (record c { kind = some kind }) >>= λ c'.
        ok (insert asset c' counters))

unfoldable pub add_resources : Bool → ResourceMap → Counters → ComputeResult Counters
add_resources side [] counters = ok counters
add_resources side ((asset, value) ∷ m) counters =
    update_resource_counter asset value side counters >>= λ c. add_resources side m c

unfoldable pub add_inputs : List ObjectOutput → Counters → ComputeResult Counters
add_inputs [] counters = ok counters
add_inputs (o ∷ os) counters =
    validate_resource_map o.resources
    >> (add_resources true o.resources counters >>= λ c. add_inputs os c)

unfoldable pub add_proposals : List OutputProposal → Counters → ComputeResult Counters
add_proposals [] counters = ok counters
add_proposals (p ∷ ps) counters =
    validate_resource_map p.resources
    >> (add_resources false p.resources counters >>= λ c. add_proposals ps c)

unfoldable pub aggregate_resources : ComputeTx → List ObjectOutput → ComputeResult Counters
aggregate_resources tx inputs = add_inputs inputs [] >>= λ c. add_proposals tx.output_proposals c

-- The loop over `counters.values()`.
unfoldable pub check_counters : Counters → ComputeResult (Unit {0})
check_counters [] = ok tt
check_counters ((_, c) ∷ counters) =
    reject_if (ltb c.input_amount c.output_amount) resource_policy_violation
    >> reject_if (ltb c.input_non_amount c.output_non_amount) resource_policy_violation
    >> check_counters counters

-- `Hash::zero()`
abbrev pub native_asset_id : Hash
native_asset_id = 0

unfoldable pub check_native : ComputeTx → ResourceCounter → ComputeResult (Unit {0})
check_native tx native =
    if is_mint tx.command
    then reject_if (not (tx.fee == 0) || not (tx.max_fee == 0) || not (tx.priority_fee == 0))
        resource_policy_violation
    else (ok_or (checked_add u128_max native.output_amount tx.fee) resource_policy_violation
        >>= λ v.
            ok_or (checked_add u128_max v tx.priority_fee) resource_policy_violation
            >>= λ required_native.
                reject_if (ltb native.input_amount required_native) resource_policy_violation)

unfoldable pub check_resources :
    ComputeTx → List ObjectOutput → List ObjectOutput → ComputeResult (Unit {0})
check_resources tx inputs reads = aggregate_resources tx inputs >>= λ counters.
    (if is_mint tx.command then ok tt else check_counters counters)
    >> check_native tx (entry native_asset_id counters)
