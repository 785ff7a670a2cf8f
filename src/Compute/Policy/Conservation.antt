-- ===== src/Compute/Policy/Conservation.antt =====
-- The resource policy conserves every asset: the counters are the plain sums of what is listed.
use rabbit_chain_node.Prelude.{
  ℕ, ◌+◌, ◌≤◌, ◌≡◌, refl, inl, inr, Bool, true, false, not, List, [], ◌∷◌, Option, none, some, ◌==◌,
  if◌then◌else◌, arith,
}
use rabbit_chain_node.Prelude.Assoc.{lookup, insert, lookup-insert}
use rabbit_chain_node.Compute.Types.{
  Hash, ResourceValue, ResourceMap, ObjectOutput, OutputProposal, ComputeTx, ok,
}
use rabbit_chain_node.Compute.Tx.{is_mint}
use rabbit_chain_node.Compute.Results.{>>=-eq-ok, ComputeResult-cases}
use rabbit_chain_node.Compute.Policy.Resources.{
  ResourceKind, ResourceCounter, Counters, entry, add_value, update_resource_counter, add_resources,
  add_inputs, add_proposals, aggregate_resources, validate_resource_map, check_counters,
  check_native, check_resources, native_asset_id, kind_of_value,
}

abbrev pub amount_of : ResourceValue → ℕ
amount_of (ResourceValue.amount v) = v
amount_of _ = 0

-- The fungible amount of an asset in a resource map.
abbrev pub amount_in : Hash → ResourceMap → ℕ
amount_in asset [] = 0
amount_in asset ((a, v) ∷ m) = (if a == asset then amount_of v else 0) + amount_in asset m

abbrev pub total_inputs : Hash → List ObjectOutput → ℕ
total_inputs asset [] = 0
total_inputs asset (o ∷ os) = amount_in asset o.resources + total_inputs asset os

abbrev pub total_proposals : Hash → List OutputProposal → ℕ
total_proposals asset [] = 0
total_proposals asset (p ∷ ps) = amount_in asset p.resources + total_proposals asset ps

-- What one side of a counter holds.
abbrev side_amount : Bool → ResourceCounter → ℕ
side_amount true c = c.input_amount
side_amount false c = c.output_amount

add_value-counts :
    (value : ResourceValue) (side : Bool) (kind : Option ResourceKind) (c c' : ResourceCounter)
    → add_value value side (record c { kind = kind }) ≡ ok c'
    → (side_amount side c' ≡ side_amount side c + amount_of value)
      × (side_amount (not side) c' ≡ side_amount (not side) c)
unfolding add_value
add_value-counts (ResourceValue.amount v) true kind c c' h = ground arith
add_value-counts (ResourceValue.amount v) false kind c c' h = ground arith
add_value-counts (ResourceValue.blob v) true kind c c' h = ground arith
add_value-counts (ResourceValue.blob v) false kind c c' h = ground arith
add_value-counts (ResourceValue.ref v) true kind c c' h = ground arith
add_value-counts (ResourceValue.ref v) false kind c c' h = ground arith
add_value-counts (ResourceValue.ref_batch v) true kind c c' h = ground arith
add_value-counts (ResourceValue.ref_batch v) false kind c c' h = ground arith

updated :
    (asset : Hash) (value : ResourceValue) (side : Bool) (c c' : Counters)
    → update_resource_counter asset value side c ≡ ok c'
    → (k : ResourceCounter) × (add_value value side
          (record (entry asset c) { kind = some (kind_of_value value) })
        ≡ ok k)
      × (c' ≡ insert asset k c)
unfolding update_resource_counter
updated asset value side c c' h =
    elim (ComputeResult-cases
      (add_value value side (record (entry asset c) { kind = some (kind_of_value value) }))) [
        | inl (k, e) ↦ (k, e, ground arith)
        | inr (f, e) ↦ absurd (ground arith)
      ]

module _ (a : Hash) where
  -- Both sides of the counter of `a`, before and after `n` is added on one side.
  abbrev Adds : Bool → ℕ → Counters → Counters → Type 0
  Adds side n c c' =
      (side_amount side (entry a c') ≡ side_amount side (entry a c) + n)
      × (side_amount (not side) (entry a c') ≡ side_amount (not side) (entry a c))

  Adds-inserted :
      (asset : Hash) (value : ResourceValue) (side : Bool) (c c' : Counters) (k : ResourceCounter)
      → c' ≡ insert asset k c
      → side_amount side k ≡ side_amount side (entry asset c) + amount_of value
      → side_amount (not side) k ≡ side_amount (not side) (entry asset c)
      → Adds side (if asset == a then amount_of value else 0) c c'
  Adds-inserted asset value true c c' k stored grows stays =
      let e : entry a c' ≡ (if asset == a then k else entry a c) =
        ground (arith, lookup-insert a asset k c) in
      rw e (ground arith)
  Adds-inserted asset value false c c' k stored grows stays =
      let e : entry a c' ≡ (if asset == a then k else entry a c) =
        ground (arith, lookup-insert a asset k c) in
      rw e (ground arith)

  update_resource_counter-Adds :
      (asset : Hash) (value : ResourceValue) (side : Bool) (c c' : Counters)
      → update_resource_counter asset value side c ≡ ok c'
      → Adds side (if asset == a then amount_of value else 0) c c'
  update_resource_counter-Adds asset value side c c' h =
      let (k, e, stored) = updated asset value side c c' h in
      let (grows, stays) = add_value-counts value side _ (entry asset c) k e in
      Adds-inserted asset value side c c' k stored grows stays

  add_resources-Adds :
      (side : Bool) (m : ResourceMap) (c c' : Counters)
      → add_resources side m c ≡ ok c'
      → Adds side (amount_in a m) c c'
  unfolding add_resources
  add_resources-Adds side [] c c' h = ground arith
  add_resources-Adds side ((asset, value) ∷ m) c c' h =
      let (d, first, rest) = >>=-eq-ok (update_resource_counter asset value side c) _ h in
      let one = update_resource_counter-Adds asset value side c d first in
      let more = add_resources-Adds side m d c' rest in omega arith

  add_inputs-Adds :
      (os : List ObjectOutput) (c c' : Counters)
      → add_inputs os c ≡ ok c'
      → Adds true (total_inputs a os) c c'
  unfolding add_inputs
  add_inputs-Adds [] c c' h = ground arith
  add_inputs-Adds (o ∷ os) c c' h =
      let (u, valid, adding) = >>=-eq-ok (validate_resource_map o.resources) _ h in
      let (d, first, rest) = >>=-eq-ok (add_resources true o.resources c) _ adding in
      let one = add_resources-Adds true o.resources c d first in
      let more = add_inputs-Adds os d c' rest in omega arith

  add_proposals-Adds :
      (ps : List OutputProposal) (c c' : Counters)
      → add_proposals ps c ≡ ok c'
      → Adds false (total_proposals a ps) c c'
  unfolding add_proposals
  add_proposals-Adds [] c c' h = ground arith
  add_proposals-Adds (p ∷ ps) c c' h =
      let (u, valid, adding) = >>=-eq-ok (validate_resource_map p.resources) _ h in
      let (d, first, rest) = >>=-eq-ok (add_resources false p.resources c) _ adding in
      let one = add_resources-Adds false p.resources c d first in
      let more = add_proposals-Adds ps d c' rest in omega arith

  -- The counter of an asset is the sum of what the inputs hold of it and of what the proposals take.
  pub aggregate_resources-counts :
      (tx : ComputeTx) (inputs : List ObjectOutput) (c : Counters)
      → aggregate_resources tx inputs ≡ ok c
      → ((entry a c).input_amount ≡ total_inputs a inputs)
        × ((entry a c).output_amount ≡ total_proposals a tx.output_proposals)
  unfolding aggregate_resources
  aggregate_resources-counts tx inputs c h =
      let (d, first, second) = >>=-eq-ok (add_inputs inputs []) _ h in
      let gives = add_inputs-Adds inputs [] d first in
      let takes = add_proposals-Adds tx.output_proposals d c second in
      let empty : lookup {V = ResourceCounter} a [] ≡ none = unfold lookup in refl in
      let none_yet : (entry a []).input_amount ≡ 0 = rw empty in
      let none_taken : (entry a []).output_amount ≡ 0 = rw empty in omega arith

-- A loop over all counters that passes has passed the counter of each asset.
check_counters-entry :
    (a : Hash) (c : Counters)
    → check_counters c ≡ ok tt
    → (entry a c).output_amount ≤ (entry a c).input_amount
unfolding check_counters lookup
check_counters-entry a [] h = omega arith
check_counters-entry a ((j, k) ∷ c) h = ground (arith, check_counters-entry a c)

check_native_paid :
    (tx : ComputeTx) (c : ResourceCounter)
    → is_mint tx.command ≡ false
    → check_native tx c ≡ ok tt
    → c.output_amount + tx.fee + tx.priority_fee ≤ c.input_amount
unfolding check_native
check_native_paid tx c plain h = ground arith

native_paid :
    (tx : ComputeTx) (inputs : List ObjectOutput) (c : Counters)
    → aggregate_resources tx inputs ≡ ok c
    → is_mint tx.command ≡ false
    → check_native tx (entry native_asset_id c) ≡ ok tt
    → total_proposals native_asset_id tx.output_proposals + tx.fee + tx.priority_fee
      ≤ total_inputs native_asset_id inputs
native_paid tx inputs c gathered plain paid = omega (
  arith,
  check_native_paid tx (entry native_asset_id c) plain paid,
  aggregate_resources-counts native_asset_id tx inputs c gathered,
)

-- A transaction that is no mint and passes the policy takes of no asset more than its inputs hold, and
-- its inputs hold the fee and the priority fee in the native asset on top of what it takes.
pub check_resources-conserves :
    (tx : ComputeTx) (inputs reads : List ObjectOutput)
    → check_resources tx inputs reads ≡ ok tt
    → is_mint tx.command ≡ false
    → ((a : Hash) → total_proposals a tx.output_proposals ≤ total_inputs a inputs)
      × (total_proposals native_asset_id tx.output_proposals + tx.fee + tx.priority_fee
          ≤ total_inputs native_asset_id inputs)
unfolding check_resources
check_resources-conserves tx inputs reads h plain =
    let (c, gathered, checked) = >>=-eq-ok (aggregate_resources tx inputs) _ h in
    let passed : check_counters c ≡ ok tt = ground arith in
    let paid : check_native tx (entry native_asset_id c) ≡ ok tt = ground arith in
    (
      λ a. omega (
        arith,
        check_counters-entry a c passed,
        aggregate_resources-counts a tx inputs c gathered,
      ),
      native_paid tx inputs c gathered plain paid,
    )
